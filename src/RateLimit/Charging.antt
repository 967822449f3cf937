-- ===== src/RateLimit/Charging.antt =====
-- src/domain/rate_limit.rs: one access keeps the state well formed, and what it does to the bucket.
use srh_rs.Base.{
  ℕ, ◌+◌, ◌<◌, ◌≤◌, ◌≡◌, refl, sym, ap, ◌∙◌, ◌≢◌, inl, inr, Bool, false, Option, none, some, Text,
  text_eq_refl, lookup, lookup-insert, size-insert, size-insert_new, arith, ◌==◌, subst,
  Option-cases, u64_mod, wrapping_add, ok,
}
use native.Mathlib.Decide.{ℕ_discrete}
use srh_rs.Base.Index.{get}
use srh_rs.RateLimit.Floats.{Float}
use srh_rs.RateLimit.{
  Bucket, Lru, RateLimiter, Access, probe, charge, unlink, link, refill, settle, access_known,
  access_new, access_at, fresh_bucket, make_room,
}
use srh_rs.RateLimit.Linked.{
  index_of, finder, IsLinked, IsLinked-ext, erase, enter, without, with_key, erase-IsLinked,
  enter-IsLinked, erase-next,
}
use srh_rs.RateLimit.Evict.{IsValid, make_room-HasRoom}

module _ (f : Float) where
  open f use {F, of_nat, zero, lt, le, minus}

  pub unlink-erase : (lru : Lru) (b : Bucket F) → unlink lru b ≡ erase lru b.indebted b.order
  unfolding unlink erase
  unlink-erase lru b = refl

  -- A place above all places in use is free.
  fresh_place :
      (find : Text → Option (Bucket F)) (lru : Lru) (d : Bool) (o : ℕ)
      → IsLinked find lru
      → lru.next_order ≤ o
      → get o (index_of lru d) ≡ none
  fresh_place find lru d o v h = elim (Option-cases (get o (index_of lru d))) [
    | inl free ↦ free
    | inr (k, taken) ↦
        let (b, found, at, flag) = v.owned d o k taken in
        absurd (omega (arith, (v.indexed k b found).older, at))
  ]

  -- What `link` does to the index, and to the bucket.
  record Links (lru : Lru) (b : Bucket F) (r : Lru × Bucket F) : Type 0 where
    order : r.1.order ≡ lru.next_order
    key : r.1.key ≡ b.key
    balance : r.1.balance ≡ b.balance
    updated : r.1.updated ≡ b.updated
    flag : r.1.indebted ≡ lt b.balance zero
    next : r.0.next_order ≡ wrapping_add lru.next_order 1
    entered : (d : Bool) → index_of r.0 d ≡ index_of (enter lru r.1.indebted r.1.order b.key) d

  link-Links : (lru : Lru) (b : Bucket F) → Links lru b (link f lru b)
  unfolding link enter
  link-Links lru b = record {
    order = refl;
    key = refl;
    balance = refl;
    updated = refl;
    flag = refl;
    next = ground arith;
    entered = λ d. ground arith;
  }

  -- A bucket under a key that has none joins the state by `link`.
  link-IsLinked :
      (find : Text → Option (Bucket F)) (lru : Lru) (k : Text) (b : Bucket F)
      → IsLinked find lru
      → find k ≡ none
      → b.key ≡ k
      → lru.next_order + 1 < u64_mod
      → IsLinked (with_key find k (link f lru b).1) (link f lru b).0
  link-IsLinked find lru k b v missing keyed fits =
      let done = link-Links lru b in
      enter-IsLinked find lru v k (link f lru b).1 (link f lru b).0 missing (done.key ∙ keyed)
        (omega (arith, done.order, done.next)) (omega (arith, done.next))
        (λ d. fresh_place find lru d _ v (omega (arith, done.order)))
        (λ d.
          done.entered d
          ∙ ap (λ k'. index_of (enter lru (link f lru b).1.indebted (link f lru b).1.order k') d)
              keyed)

  -- What the settled bucket looks like, and the answer.
  settle-key : (rate : ℕ) (b : Bucket F) (a : Access) → (settle f rate b a).0.key ≡ b.key
  unfolding settle
  settle-key rate b probe = ground arith
  settle-key rate b (charge n) = ground arith

  access_known-IsValid :
      (l : RateLimiter F) (k : Text) (b : Bucket F) (a : Access) (now : ℕ)
      → IsValid l
      → lookup k l.entries ≡ some b
      → l.lru.next_order + 1 < u64_mod
      → IsValid (access_known f l k b a now).0
  unfolding access_known
  access_known-IsValid l k b a now v found fits =
      let refilled : Bucket F = record (refill f b now l.rate l.capacity) { last_access = now } in
      let settled = (settle f l.rate refilled a).0 in
      let out = erase-IsLinked (finder l.entries) l.lru v.linked k b found in
      let out' = subst (IsLinked (without (finder l.entries) k)) (sym (unlink-erase l.lru b)) out in
      let missing : without (finder l.entries) k k ≡ none = ground (arith, text_eq_refl k) in
      let keyed : settled.key ≡ k =
        settle-key l.rate refilled a ∙ unfold refill in (v.linked.indexed k b found).keyed in
      let same_next : (unlink l.lru b).next_order ≡ l.lru.next_order =
        ap (λ x. x.next_order) (unlink-erase l.lru b) ∙ erase-next l.lru b.indebted b.order in
      let into =
        link-IsLinked _ (unlink l.lru b) k settled out' missing keyed (omega (arith, same_next)) in
      record {
        linked =
            IsLinked-ext
              (λ j. ground (arith, lookup-insert k j (link f (unlink l.lru b) settled).1 l.entries))
              into;
        room = v.room;
        bounded = omega (
          arith,
          v.bounded,
          size-insert_new k (link f (unlink l.lru b) settled).1 b l.entries found,
        );
      }

  access_new-IsValid :
      (l : RateLimiter F) (k : Text) (a : Access) (now : ℕ)
      → IsValid l
      → lookup k l.entries ≡ none
      → l.lru.next_order + 1 < u64_mod
      → IsValid (access_new f l k a now).0
  unfolding access_new
  access_new-IsValid l k a now v missing fits =
      let r = make_room-HasRoom l v in
      let l' = make_room l in
      let first : Bucket F = fresh_bucket l.capacity k now in
      let settled = (settle f l.rate first a).0 in
      let into =
        link-IsLinked (finder l'.entries) l'.lru k settled r.linked (r.absent k missing)
          (settle-key l.rate first a) (omega (arith, r.next)) in
      let linked = (link f l'.lru settled).1 in
      record {
        linked = IsLinked-ext (λ j. sym (lookup-insert k j linked l'.entries)) into;
        room = omega (arith, v.room, r.same_max);
        bounded = omega (arith, r.fits, r.same_max, size-insert k linked l'.entries);
      }

  -- The three ways of an access.
  access_off :
      (l : RateLimiter F) (k : Text) (a : Access) (now : ℕ)
      → l.rate ≡ 0
      → access_at f l k a now ≡ (l, ok tt)
  unfolding access_at
  access_off l k a now e = ground arith

  pub access_of_known :
      (l : RateLimiter F) (k : Text) (b : Bucket F) (a : Access) (now : ℕ)
      → l.rate ≢ 0
      → lookup k l.entries ≡ some b
      → access_at f l k a now ≡ access_known f l k b a now
  unfolding access_at
  access_of_known l k b a now on found =
      let off : (l.rate == 0) ≡ false = ground arith in rw (off, access_at) (rw found)

  pub access_of_new :
      (l : RateLimiter F) (k : Text) (a : Access) (now : ℕ)
      → l.rate ≢ 0
      → lookup k l.entries ≡ none
      → access_at f l k a now ≡ access_new f l k a now
  unfolding access_at
  access_of_new l k a now on missing =
      let off : (l.rate == 0) ≡ false = ground arith in rw (off, access_at) (rw missing)

  pub access_at-IsValid :
      (l : RateLimiter F) (k : Text) (a : Access) (now : ℕ)
      → IsValid l
      → l.lru.next_order + 1 < u64_mod
      → IsValid (access_at f l k a now).0
  access_at-IsValid l k a now v fits = elim (ℕ_discrete l.rate 0) [
    | yes off ↦ subst (λ r. IsValid r.0) (sym (access_off l k a now off)) v
    | no on ↦ elim (Option-cases (lookup k l.entries)) [
      | inl missing ↦
          subst (λ r. IsValid r.0) (sym (access_of_new l k a now on missing))
            (access_new-IsValid l k a now v missing fits)
      | inr (b, found) ↦
          subst (λ r. IsValid r.0) (sym (access_of_known l k b a now on found))
            (access_known-IsValid l k b a now v found fits)
    ]
  ]

  known-next :
      (l : RateLimiter F) (k : Text) (b : Bucket F) (a : Access) (now : ℕ)
      → l.lru.next_order + 1 < u64_mod
      → (access_known f l k b a now).0.lru.next_order ≡ l.lru.next_order + 1
  unfolding access_known unlink link
  known-next l k b a now fits = ground arith

  new-next :
      (l : RateLimiter F) (k : Text) (a : Access) (now : ℕ)
      → (make_room l).lru.next_order ≡ l.lru.next_order
      → l.lru.next_order + 1 < u64_mod
      → (access_new f l k a now).0.lru.next_order ≡ l.lru.next_order + 1
  unfolding access_new link
  new-next l k a now same_next fits = ground arith

  -- Each access takes at most one place in the order.
  pub access_at-next :
      (l : RateLimiter F) (k : Text) (a : Access) (now : ℕ)
      → IsValid l
      → l.lru.next_order + 1 < u64_mod
      → (access_at f l k a now).0.lru.next_order ≤ l.lru.next_order + 1
  access_at-next l k a now v fits = elim (ℕ_discrete l.rate 0) [
    | yes off ↦ rw (access_off l k a now off) (omega arith)
    | no on ↦ elim (Option-cases (lookup k l.entries)) [
      | inl missing ↦
          rw (access_of_new l k a now on missing)
            (omega (arith, new-next l k a now (make_room-HasRoom l v).next fits))
      | inr (b, found) ↦
          rw (access_of_known l k b a now on found) (omega (arith, known-next l k b a now fits))
    ]
  ]
