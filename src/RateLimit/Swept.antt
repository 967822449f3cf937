-- ===== src/RateLimit/Swept.antt =====
-- src/domain/rate_limit.rs: a sweep keeps the limiter well formed.
use srh_rs.Base.{
  ℕ, ◌≡◌, refl, sym, ap, ◌∙◌, ◌⊎◌, inl, inr, Bool, true, false, ◌&&◌, List, [], ◌∷◌, Option, none,
  some, Text, text_eq, text_eq_iff, text_eq_refl, lookup, remove, lookup-insert, lookup-remove,
  size-insert_new, size-remove_le, arith, ◌==◌, Bool-cases, subst, Option-cases,
}
use srh_rs.Base.Index.{get, put, delete}
use srh_rs.RateLimit.Floats.{Float}
use srh_rs.RateLimit.{
  Bucket, Lru, RateLimiter, unlink, refill, scan_bucket, scan_key, scan, drop_bucket, drop_all,
  sweep_idle, keys,
}
use srh_rs.RateLimit.Linked.{
  index_of, finder, IsPlaced, IsLinked, IsLinked-ext, erase, enter, without, with_key,
  erase-IsLinked, enter-IsLinked, get-erase, erase-next,
}
use srh_rs.RateLimit.Evict.{IsValid}
use srh_rs.RateLimit.Charging.{unlink-erase}

module _ {F : Type 0} (find : Text → Option (Bucket F)) (lru : Lru) (v : IsLinked find lru)
    (k : Text) (b b' : Bucket F) (found : find k ≡ some b) where
  -- A bucket whose key, place and flag stay may change in all else.
  touch-IsLinked :
      b'.key ≡ b.key
      → b'.order ≡ b.order
      → b'.indebted ≡ b.indebted
      → IsLinked (with_key find k b') lru
  touch-IsLinked key order flag = record {
    indexed = λ j c got. placed j c got (Bool-cases (text_eq k j));
    owned = λ d o j got. held d o j (v.owned d o j got) (Bool-cases (text_eq k j));
    ascending = v.ascending;
    apart = v.apart;
  }
    where
      here : IsPlaced lru k b
      here = v.indexed k b found

      mine : IsPlaced lru k b'
      mine = record {
        keyed = key ∙ here.keyed;
        older = rw order here.older;
        listed = rw (order, flag) here.listed;
      }

      placed :
          (j : Text) (c : Bucket F)
          → with_key find k b' j ≡ some c
          → (text_eq k j ≡ true) ⊎ (text_eq k j ≡ false)
          → IsPlaced lru j c
      placed j c got (inl hit) =
          subst (λ x. IsPlaced lru j x) (ground arith)
            (subst (λ x. IsPlaced lru x b') ((text_eq_iff k j).0 hit) mine)
      placed j c got (inr miss) = v.indexed j c (ground arith)

      held :
          (d : Bool) (o : ℕ) (j : Text)
          → (c : Bucket F) × (find j ≡ some c) × (c.order ≡ o) × (c.indebted ≡ d)
          → (text_eq k j ≡ true) ⊎ (text_eq k j ≡ false)
          → (c : Bucket F) × (with_key find k b' j ≡ some c) × (c.order ≡ o) × (c.indebted ≡ d)
      held d o j (c, found', at, owes) (inl hit) =
          let one : b ≡ c = ground (arith, ap find ((text_eq_iff k j).0 hit), found, found') in
          (
            b',
            ground arith,
            order ∙ (ap (λ x. x.order) one ∙ at),
            flag ∙ (ap (λ x. x.indebted) one ∙ owes),
          )
      held d o j (c, found', at, owes) (inr miss) = (c, ground arith, at, owes)

  -- A bucket of the index of debt moves to the index of credit and keeps its place in the order.
  move-IsLinked :
      (lru' : Lru)
      → b.indebted ≡ true
      → b'.key ≡ b.key
      → b'.order ≡ b.order
      → b'.indebted ≡ false
      → lru'.next_order ≡ lru.next_order
      → lru'.debt ≡ delete b.order lru.debt
      → lru'.credit ≡ put b.order k lru.credit
      → IsLinked (with_key find k b') lru'
  unfolding enter erase
  move-IsLinked lru' owes key order flag next debt credit =
      let gone : Lru = erase lru b.indebted b.order in
      let out = erase-IsLinked find lru v k b found in
      let here = v.indexed k b found in
      IsLinked-ext {other = with_key find k b'} (λ j. ground arith)
        (enter-IsLinked (without find k) gone out k b' lru' (ground (arith, text_eq_refl k))
          (key ∙ here.keyed) (omega (arith, here.older, order, next))
          (omega (arith, next, erase-next lru b.indebted b.order)) free entered)
    where
      no_credit : get b.order lru.credit ≡ none
      no_credit = elim (Option-cases (get b.order lru.credit)) [
        | inl e ↦ e
        | inr (j, got) ↦ absurd (
            v.apart b.order j k got (
              subst (λ d. get b.order (index_of lru d) ≡ some k) owes (v.indexed k b found).listed))
      ]

      free : (d : Bool) → get b'.order (index_of (erase lru b.indebted b.order) d) ≡ none
      free true =
          ground (arith, get-erase lru v.ascending b.indebted b.order true b'.order, owes, order)
      free false =
          get-erase lru v.ascending b.indebted b.order false b'.order
          ∙ ground (arith, no_credit, owes, order, ap (λ o. get o lru.credit) order)

      entered :
          (d : Bool)
          → index_of lru' d
            ≡ index_of (enter (erase lru b.indebted b.order) b'.indebted b'.order k) d
      entered true = ground arith
      entered false = ground arith

module _ (f : Float) where
  open f use {F, zero, lt, le}

  drop_bucket-IsValid : (l : RateLimiter F) (k : Text) → IsValid l → IsValid (drop_bucket l k)
  drop_bucket-IsValid l k v = elim (Option-cases (lookup k l.entries)) [
    | inl missing ↦ subst IsValid (sym (drop_missing l k missing)) v
    | inr (b, found) ↦ subst IsValid (sym (drop_found l k b found)) (record {
      linked =
          IsLinked-ext (λ j. sym (lookup-remove k j l.entries))
            (subst (IsLinked (without (finder l.entries) k)) (sym (unlink-erase f l.lru b))
              (erase-IsLinked (finder l.entries) l.lru v.linked k b found));
      room = v.room;
      bounded = omega (arith, v.bounded, size-remove_le k l.entries);
    })
  ]
    where
      drop_missing :
          (l : RateLimiter F) (k : Text) → lookup k l.entries ≡ none → drop_bucket l k ≡ l
      drop_missing l k e = unfold drop_bucket in ground arith

      drop_found :
          (l : RateLimiter F) (k : Text) (b : Bucket F)
          → lookup k l.entries ≡ some b
          → drop_bucket l k
            ≡ record l { buckets = record { entries = remove k l.entries; lru = unlink l.lru b } }
      drop_found l k b e = unfold drop_bucket in ground arith

  scan_bucket-IsValid :
      (l : RateLimiter F) (now : ℕ) (k : Text) (b : Bucket F)
      → IsValid l
      → lookup k l.entries ≡ some b
      → IsValid (scan_bucket f l now k b).0
  unfolding scan_bucket refill
  scan_bucket-IsValid l now k b v found =
      let refilled : Bucket F = refill f b now l.rate l.capacity in
      let kept : Bucket F = record refilled { indebted = false } in
      elim (Bool-cases (refilled.indebted && le zero refilled.balance)) [
        | inl repaid ↦ rw repaid (record {
          linked =
              IsLinked-ext (λ j. sym (lookup-insert k j kept l.entries))
                (move-IsLinked (finder l.entries) l.lru v.linked k b kept found _ (ground arith)
                  refl refl refl refl refl refl);
          room = v.room;
          bounded = omega (arith, v.bounded, size-insert_new k kept b l.entries found);
        })
        | inr waits ↦ rw waits (record {
          linked =
              IsLinked-ext (λ j. sym (lookup-insert k j refilled l.entries))
                (touch-IsLinked (finder l.entries) l.lru v.linked k b refilled found refl refl
                  refl);
          room = v.room;
          bounded = omega (arith, v.bounded, size-insert_new k refilled b l.entries found);
        })
      ]

  scan_key-IsValid :
      (l : RateLimiter F) (now : ℕ) (k : Text) → IsValid l → IsValid (scan_key f l now k).0
  unfolding scan_key
  scan_key-IsValid l now k v = elim (Option-cases (lookup k l.entries)) [
    | inl missing ↦ rw (missing, scan_key) v
    | inr (b, found) ↦ rw (found, scan_key) (scan_bucket-IsValid l now k b v found)
  ]

  scan-IsValid :
      (l : RateLimiter F) (now : ℕ) (ks : List Text) → IsValid l → IsValid (scan f l now ks).0
  unfolding scan
  scan-IsValid l now [] v = v
  scan-IsValid l now (k ∷ ks) v =
      scan-IsValid (scan_key f l now k).0 now ks (scan_key-IsValid l now k v)

  drop_all-IsValid : (l : RateLimiter F) (ks : List Text) → IsValid l → IsValid (drop_all l ks)
  unfolding drop_all
  drop_all-IsValid l [] v = v
  drop_all-IsValid l (k ∷ ks) v = drop_all-IsValid (drop_bucket l k) ks (drop_bucket-IsValid l k v)

  pub sweep_idle-IsValid :
      (l : RateLimiter F) (now : ℕ) → IsValid l → IsValid (sweep_idle f l now).0
  unfolding sweep_idle
  sweep_idle-IsValid l now v = elim (Bool-cases (l.rate == 0)) [
    | inl off ↦ rw off v
    | inr on ↦ rw on (
        drop_all-IsValid _ (scan f l now (keys l.entries)).1
          (scan-IsValid l now (keys l.entries) v))
  ]
