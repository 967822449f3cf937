-- ===== src/RateLimit/Linked.antt =====
-- src/domain/rate_limit.rs: the recency index and the buckets agree.
use srh_rs.Base.{
  ℕ, ◌<◌, ◌≤◌, ◌≡◌, refl, sym, ap, ◌∙◌, ◌≢◌, ◌⊎◌, inl, inr, Bool, true, false, not, ◌&&◌, Option,
  none, some, Text, text_eq, text_eq_iff, Map, lookup, arith, if◌then◌else◌, ◌==◌, Bool-cases,
  subst,
}
use mathlib.Core.Path.{fun_ext}
use srh_rs.Base.Index.{
  Index, get, put, delete, IsAscending, get-put, get-delete, put-IsAscending, delete-IsAscending,
}
use srh_rs.RateLimit.{Bucket, Lru}

-- The index that holds the buckets of a flag.
abbrev pub index_of : Lru → Bool → Index Text
index_of lru true = lru.debt
index_of lru false = lru.credit

-- Where a bucket stands: its index, its place there, and its key.
pub record IsPlaced {F : Type 0} (lru : Lru) (k : Text) (b : Bucket F) : Type 0 where
  pub keyed : b.key ≡ k
  pub older : b.order < lru.next_order
  pub listed : get b.order (index_of lru b.indebted) ≡ some k

-- The buckets are given by a lookup function.
pub record IsLinked {F : Type 0} (find : Text → Option (Bucket F)) (lru : Lru) : Type 0 where
  pub indexed : (k : Text) (b : Bucket F) → find k ≡ some b → IsPlaced lru k b
  pub owned :
      (d : Bool) (o : ℕ) (k : Text)
      → get o (index_of lru d) ≡ some k
      → (b : Bucket F) × (find k ≡ some b) × (b.order ≡ o) × (b.indebted ≡ d)
  pub ascending : (d : Bool) → IsAscending (index_of lru d)
  pub apart : (o : ℕ) (j k : Text) → get o lru.credit ≡ some j → get o lru.debt ≢ some k

abbrev pub finder : {F : Type 0} → Map (Bucket F) → Text → Option (Bucket F)
finder entries k = lookup k entries

pub IsLinked-ext :
    {F : Type 0} {find other : Text → Option (Bucket F)} {lru : Lru}
    → ((k : Text) → find k ≡ other k)
    → IsLinked find lru
    → IsLinked other lru
IsLinked-ext {lru} same v = subst (λ g. IsLinked g lru) (fun_ext same) v

-- The indices with one place taken out, and with one put in.
unfoldable pub erase : Lru → Bool → ℕ → Lru
erase lru e o =
    if e
    then record lru { debt = delete o lru.debt }
    else record lru { credit = delete o lru.credit }

unfoldable pub enter : Lru → Bool → ℕ → Text → Lru
enter lru e o k =
    if e then record lru { debt = put o k lru.debt } else record lru { credit = put o k lru.credit }

abbrev pub same : Bool → Bool → Bool
same true d = d
same false d = not d

pub erase_credit :
    (lru : Lru) (o : ℕ) (rest : Index Text)
    → rest ≡ delete o lru.credit
    → record lru { credit = rest } ≡ erase lru false o
unfolding erase
erase_credit lru o rest e = ap (λ m. record lru { credit = m }) e

pub erase_debt :
    (lru : Lru) (o : ℕ) (rest : Index Text)
    → rest ≡ delete o lru.debt
    → record lru { debt = rest } ≡ erase lru true o
unfolding erase
erase_debt lru o rest e = ap (λ m. record lru { debt = m }) e

module _ (lru : Lru) (asc : (d : Bool) → IsAscending (index_of lru d)) where
  pub get-erase :
      (e : Bool) (o : ℕ) (d : Bool) (i : ℕ)
      → get i (index_of (erase lru e o) d)
        ≡ (if same e d && o == i then none else get i (index_of lru d))
  unfolding erase
  get-erase true o true i = get-delete o i lru.debt (asc true)
  get-erase true o false i = refl
  get-erase false o true i = refl
  get-erase false o false i = get-delete o i lru.credit (asc false)

  erase-IsAscending : (e : Bool) (o : ℕ) (d : Bool) → IsAscending (index_of (erase lru e o) d)
  unfolding erase
  erase-IsAscending true o true = delete-IsAscending o lru.debt (asc true)
  erase-IsAscending true o false = asc false
  erase-IsAscending false o true = asc true
  erase-IsAscending false o false = delete-IsAscending o lru.credit (asc false)

  get-enter :
      (e : Bool) (o : ℕ) (k : Text) (d : Bool) (i : ℕ)
      → get i (index_of (enter lru e o k) d)
        ≡ (if same e d && o == i then some k else get i (index_of lru d))
  unfolding enter
  get-enter true o k true i = get-put o i k lru.debt (asc true)
  get-enter true o k false i = refl
  get-enter false o k true i = refl
  get-enter false o k false i = get-put o i k lru.credit (asc false)

  enter-IsAscending :
      (e : Bool) (o : ℕ) (k : Text) (d : Bool) → IsAscending (index_of (enter lru e o k) d)
  unfolding enter
  enter-IsAscending true o k true = put-IsAscending o k lru.debt (asc true)
  enter-IsAscending true o k false = asc false
  enter-IsAscending false o k true = asc true
  enter-IsAscending false o k false = put-IsAscending o k lru.credit (asc false)

pub erase-next : (lru : Lru) (e : Bool) (o : ℕ) → (erase lru e o).next_order ≡ lru.next_order
unfolding erase
erase-next lru true o = refl
erase-next lru false o = refl

enter-next :
    (lru : Lru) (e : Bool) (o : ℕ) (k : Text) → (enter lru e o k).next_order ≡ lru.next_order
unfolding enter
enter-next lru true o k = refl
enter-next lru false o k = refl

-- The lookup without one key, and with one key set.
abbrev pub without : {F : Type 0} → (Text → Option (Bucket F)) → Text → Text → Option (Bucket F)
without find k j = if text_eq k j then none else find j

abbrev pub with_key :
    {F : Type 0} → (Text → Option (Bucket F)) → Text → Bucket F → Text → Option (Bucket F)
with_key find k b j = if text_eq k j then some b else find j

module _ {F : Type 0} (find : Text → Option (Bucket F)) (lru : Lru) (v : IsLinked find lru) where
  -- A bucket leaves, and its place in the index with it.
  pub erase-IsLinked :
      (k : Text) (b : Bucket F)
      → find k ≡ some b
      → IsLinked (without find k) (erase lru b.indebted b.order)
  erase-IsLinked k b found = record {
    indexed = λ j c got. stays j c got (Bool-cases (text_eq k j));
    owned = λ d o j got. kept d o j got;
    ascending = erase-IsAscending lru v.ascending b.indebted b.order;
    apart = λ o i j p q. ground (
      arith,
      get-erase lru v.ascending b.indebted b.order false o,
      get-erase lru v.ascending b.indebted b.order true o,
      v.apart o i j,
    );
  }
    where
      here : IsPlaced lru k b
      here = v.indexed k b found

      stays :
          (j : Text) (c : Bucket F)
          → without find k j ≡ some c
          → (text_eq k j ≡ true) ⊎ (text_eq k j ≡ false)
          → IsPlaced (erase lru b.indebted b.order) j c
      stays j c got (inl hit) = absurd (ground arith)
      stays j c got (inr miss) =
          let there = v.indexed j c (ground arith) in
          let clash = get-erase lru v.ascending b.indebted b.order c.indebted c.order in
          record {
            keyed = there.keyed;
            older = rw (erase-next lru b.indebted b.order) there.older;
            listed = ground (arith, clash, here.listed, there.listed, text_eq_iff k j);
          }

      kept :
          (d : Bool) (o : ℕ) (j : Text)
          → get o (index_of (erase lru b.indebted b.order) d) ≡ some j
          → (c : Bucket F) × (without find k j ≡ some c) × (c.order ≡ o) × (c.indebted ≡ d)
      kept d o j got =
          let clash = get-erase lru v.ascending b.indebted b.order d o in
          let (c, found', at, flag) = v.owned d o j (ground (arith, clash)) in
          (c, ground (arith, clash, text_eq_iff k j, ap find), at, flag)

  module _ (k : Text) (b : Bucket F) (lru' : Lru) (missing : find k ≡ none) (keyed : b.key ≡ k)
      (below : b.order < lru'.next_order) (grows : lru.next_order ≤ lru'.next_order)
      (free : (d : Bool) → get b.order (index_of lru d) ≡ none)
      (new : (d : Bool) → index_of lru' d ≡ index_of (enter lru b.indebted b.order k) d) where
    found_in :
        (d : Bool) (o : ℕ)
        → get o (index_of lru' d)
          ≡ (if same b.indebted d && b.order == o then some k else get o (index_of lru d))
    found_in d o = ap (get o) (new d) ∙ get-enter lru v.ascending b.indebted b.order k d o

    mine : IsPlaced lru' k b
    mine = record {
      keyed = keyed;
      older = below;
      listed = ground (arith, found_in b.indebted b.order);
    }

    others : (j : Text) (c : Bucket F) → text_eq k j ≡ false → find j ≡ some c → IsPlaced lru' j c
    others j c miss got =
        let there = v.indexed j c got in
        record {
          keyed = there.keyed;
          older = omega (arith, there.older);
          listed = ground (arith, found_in c.indebted c.order, there.listed, free b.indebted);
        }

    indexed_after :
        (j : Text) (c : Bucket F)
        → with_key find k b j ≡ some c
        → (text_eq k j ≡ true) ⊎ (text_eq k j ≡ false)
        → IsPlaced lru' j c
    indexed_after j c got (inl hit) =
        let one : b ≡ c = ground arith in
        let key : k ≡ j = (text_eq_iff k j).0 hit in
        subst (λ x. IsPlaced lru' j x) one (subst (λ x. IsPlaced lru' x b) key mine)
    indexed_after j c got (inr miss) = others j c miss (ground arith)

    owned_after :
        (d : Bool) (o : ℕ) (j : Text)
        → get o (index_of lru' d) ≡ some j
        → ((same b.indebted d && b.order == o) ≡ true)
          ⊎ ((same b.indebted d && b.order == o) ≡ false)
        → (c : Bucket F) × (with_key find k b j ≡ some c) × (c.order ≡ o) × (c.indebted ≡ d)
    owned_after d o j got (inl hit) =
        (b, ground (arith, found_in d o, text_eq_iff k j), ground arith, ground arith)
    owned_after d o j got (inr miss) =
        let (c, found, at, flag) = v.owned d o j (ground (arith, found_in d o)) in
        (c, ground (arith, text_eq_iff k j, ap find), at, flag)

    -- A bucket enters under a key that has none, at a place that is free.
    pub enter-IsLinked : IsLinked (with_key find k b) lru'
    enter-IsLinked = record {
      indexed = λ j c got. indexed_after j c got (Bool-cases (text_eq k j));
      owned = λ d o j got. owned_after d o j got (Bool-cases (same b.indebted d && b.order == o));
      ascending = λ d.
          subst IsAscending (sym (new d))
            (enter-IsAscending lru v.ascending b.indebted b.order k d);
      apart = λ o i j p q.
          ground (arith, found_in false o, found_in true o, free true, free false, v.apart o i j);
    }
