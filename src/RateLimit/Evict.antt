-- ===== src/RateLimit/Evict.antt =====
-- src/domain/rate_limit.rs: making room for a new bucket.
use srh_rs.Base.{
  ℕ, ◌+◌, ◌<◌, ◌≤◌, ◌≡◌, refl, sym, ap, ◌∙◌, ◌≢◌, inl, inr, Bool, true, false, [], ◌∷◌, none, some,
  Text, text_eq, text_eq_refl, Map, lookup, remove, lookup-remove, size-remove, arith,
  if◌then◌else◌, leb, length, Bool-cases, subst,
}
use srh_rs.Base.Index.{Index, IsAscending, get, delete, pop_first_lem, first_is_least}
use srh_rs.RateLimit.{Bucket, Lru, Buckets, RateLimiter, evict_one, make_room}
use srh_rs.RateLimit.Linked.{
  index_of, finder, IsLinked, IsLinked-ext, erase, erase_credit, erase_debt, erase-IsLinked,
}

-- The limiter's state: the index agrees with the buckets, of which there are not too many.
pub record IsValid {F : Type 0} (l : RateLimiter F) : Type 0 where
  pub linked : IsLinked (finder l.entries) l.lru
  pub room : 1 ≤ l.max_buckets
  pub bounded : length l.entries ≤ l.max_buckets

module _ {F : Type 0} where
  finder-remove :
      (entries : Map (Bucket F)) (k j : Text)
      → (if text_eq k j then none else finder entries j) ≡ finder (remove k entries) j
  finder-remove entries k j = sym (lookup-remove k j entries)

  -- What eviction takes from the index of a flag, whose head it removes.
  pub record Evicted (s t : Buckets F) (e : Bool) : Type 0 where
    pub victim : Bucket F
    pub key : Text
    pub held : lookup key s.entries ≡ some victim
    pub flag : victim.indebted ≡ e
    pub gone : t.entries ≡ remove key s.entries
    pub linked : IsLinked (finder t.entries) t.lru
    pub oldest :
        (k : Text) (b : Bucket F)
        → lookup k s.entries ≡ some b
        → b.indebted ≡ e
        → victim.order ≤ b.order

  evict_from :
      (s : Buckets F) (lru' : Lru) (e : Bool) (o : ℕ) (key : Text) (rest : Index Text)
      → IsLinked (finder s.entries) s.lru
      → index_of s.lru e ≡ (o, key) ∷ rest
      → lru' ≡ erase s.lru e o
      → Evicted s (record { entries = remove key s.entries; lru = lru' }) e
  evict_from s lru' e o key rest v head same =
      let asc = subst IsAscending head (v.ascending e) in
      let listed : get o (index_of s.lru e) ≡ some key = rw head (pop_first_lem o key rest asc).0 in
      let (b, held, at, flag) = v.owned e o key listed in
      let place : lru' ≡ erase s.lru b.indebted b.order = rw (flag, at) same in
      record {
        victim = b;
        key = key;
        held = held;
        flag = flag;
        gone = refl;
        linked =
            IsLinked-ext (finder-remove s.entries key) (
              subst (IsLinked _) (sym place)
                (erase-IsLinked (finder s.entries) s.lru v key b held));
        oldest = λ k c found owes.
            let there = (v.indexed k c found).listed in
            let there' = subst (λ d. get c.order (index_of s.lru d) ≡ some k) owes there in
            let there'' = subst (λ m. get c.order m ≡ some k) head there' in
            subst (λ n. n ≤ c.order) (sym at) (first_is_least o key rest c.order k asc there'');
      }

  evict_credit :
      (s : Buckets F) (o : ℕ) (key : Text) (credit : Index Text)
      → s.lru.credit ≡ (o, key) ∷ credit
      → evict_one s
        ≡ (record { entries = remove key s.entries; lru = record s.lru { credit = credit } }, false)
  unfolding evict_one
  evict_credit s o key credit e = ground arith

  evict_debt :
      (s : Buckets F) (o : ℕ) (key : Text) (debt : Index Text)
      → s.lru.credit ≡ []
      → s.lru.debt ≡ (o, key) ∷ debt
      → evict_one s
        ≡ (record { entries = remove key s.entries; lru = record s.lru { debt = debt } }, true)
  unfolding evict_one
  evict_debt s o key debt c e = ground arith

  a_key : (m : Map (Bucket F)) → 0 < length m → (k : Text) × (b : Bucket F) × (lookup k m ≡ some b)
  unfolding lookup
  a_key [] h = absurd (omega arith)
  a_key ((k, b) ∷ m) h = (k, b, rw (text_eq_refl k))

  empty_index :
      (s : Buckets F) (d : Bool) (k : Text) (b : Bucket F)
      → IsLinked (finder s.entries) s.lru
      → index_of s.lru d ≡ []
      → lookup k s.entries ≡ some b
      → b.indebted ≢ d
  unfolding get
  empty_index s d k b v none' found e =
      let there =
        subst (λ x. get b.order (index_of s.lru x) ≡ some k) e (v.indexed k b found).listed in
      let there' = subst (λ m. get b.order m ≡ some k) none' there in cc

  -- The buckets of a flag are all that there is.
  abbrev pub AllOwe : Buckets F → Type 0
  AllOwe s = (k : Text) (b : Bucket F) → lookup k s.entries ≡ some b → b.indebted ≡ true

  -- What `evict_one` does to a limiter that holds a bucket: it takes the least recently used bucket
  -- without debt or, if every bucket is in debt, the least recently used of all, and reports which.
  abbrev pub Evicts : Buckets F → Buckets F × Bool → Type 0
  Evicts s r = Evicted s r.0 r.1 × (r.1 ≡ true → AllOwe s)

  evict_one-cases :
      (s : Buckets F) (credit debt : Index Text)
      → IsLinked (finder s.entries) s.lru
      → s.lru.credit ≡ credit
      → s.lru.debt ≡ debt
      → 0 < length s.entries
      → Evicts s (evict_one s)
  evict_one-cases s ((o, key) ∷ credit) debt v c d some' =
      let asc = subst IsAscending c (v.ascending false) in
      let rest : credit ≡ delete o s.lru.credit =
        (pop_first_lem o key credit asc).1 ∙ sym (ap (delete o) c) in
      subst (Evicts s) (sym (evict_credit s o key credit c))
        (evict_from s _ false o key credit v c (erase_credit s.lru o credit rest), (λ e. cc))
  evict_one-cases s [] ((o, key) ∷ debt) v c d some' =
      let asc = subst IsAscending d (v.ascending true) in
      let rest : debt ≡ delete o s.lru.debt =
        (pop_first_lem o key debt asc).1 ∙ sym (ap (delete o) d) in
      subst (Evicts s) (sym (evict_debt s o key debt c d)) (
        evict_from s _ true o key debt v d (erase_debt s.lru o debt rest),
        (λ e k b found. ground (arith, empty_index s false k b v c found)),
      )
  evict_one-cases s [] [] v c d some' =
      let (k, b, found) = a_key s.entries some' in
      absurd (ground (arith, empty_index s false k b v c found, empty_index s true k b v d found))

  -- In a limiter whose index agrees with its buckets, and which holds one, eviction removes exactly
  -- one bucket: the least recently used of those without debt if there is one. A debt is forgiven,
  -- and reported, only if every bucket is in debt, and then it is the oldest. The index agrees with
  -- the buckets afterwards.
  pub evict_one-Evicts :
      (s : Buckets F)
      → IsLinked (finder s.entries) s.lru
      → 0 < length s.entries
      → Evicts s (evict_one s)
  evict_one-Evicts s v h = evict_one-cases s s.lru.credit s.lru.debt v refl refl h

  evict_one-next : (s : Buckets F) → (evict_one s).0.lru.next_order ≡ s.lru.next_order
  unfolding evict_one
  evict_one-next s = ground arith

  -- After `make_room` one bucket more fits.
  pub record HasRoom (l l' : RateLimiter F) : Type 0 where
    pub linked : IsLinked (finder l'.entries) l'.lru
    pub fits : length l'.entries + 1 ≤ l.max_buckets
    pub next : l'.lru.next_order ≡ l.lru.next_order
    pub rate : l'.rate ≡ l.rate
    pub same_max : l'.max_buckets ≡ l.max_buckets
    pub absent : (k : Text) → lookup k l.entries ≡ none → lookup k l'.entries ≡ none

  pub make_room-HasRoom : (l : RateLimiter F) → IsValid l → HasRoom l (make_room l)
  unfolding make_room
  make_room-HasRoom l v = elim (Bool-cases (leb l.max_buckets (length l.entries))) [
    | inl full ↦
        let held = (v.room) in
        let (out, owed) = evict_one-Evicts l.buckets v.linked (ground arith) in
        rw full (record {
          linked = out.linked;
          fits = omega (
            arith,
            v.bounded,
            ap length out.gone,
            size-remove out.key out.victim l.entries out.held,
          );
          next = evict_one-next l.buckets;
          rate = refl;
          same_max = refl;
          absent =
              λ k h. ap (lookup k) out.gone ∙ ground (arith, lookup-remove out.key k l.entries, h);
        })
    | inr room ↦ rw room (record {
      linked = v.linked;
      fits = ground arith;
      next = refl;
      rate = refl;
      same_max = refl;
      absent = λ k h. h;
    })
  ]
