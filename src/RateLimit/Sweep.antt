-- ===== src/RateLimit/Sweep.antt =====
-- src/domain/rate_limit.rs: the idle sweep, and any sequence of operations.
use srh_rs.Base.{
  ℕ, ◌+◌, ◌<◌, ◌≤◌, ◌≡◌, refl, ◌∙◌, ◌≢◌, inl, inr, Bool, true, false, List, [], ◌∷◌, some, Text,
  lookup, arith, ◌==◌, length, Bool-cases, Option-cases, u64_mod,
}
use srh_rs.Base.Index.{get, IsAscending}
use srh_rs.RateLimit.Floats.{Float}
use srh_rs.RateLimit.{
  Bucket, RateLimiter, Access, unlink, access_at, scan_bucket, scan_key, scan, drop_bucket,
  drop_all, sweep_idle, keys, with_max_buckets, take_debt_forgiven_evictions,
}
use srh_rs.RateLimit.Linked.{index_of}
use srh_rs.RateLimit.Evict.{IsValid}
use srh_rs.RateLimit.Charging.{access_at-IsValid, access_at-next}
use srh_rs.RateLimit.Swept.{sweep_idle-IsValid}

-- What a caller or the maintenance task does to the limiter.
pub data Operation : Type 0 where
  accesses : Text → Access → ℕ → Operation
  sweeps : ℕ → Operation
  drains : Operation

abbrev pub apply : (f : Float) → RateLimiter (f.F) → Operation → RateLimiter (f.F)
apply f l (accesses k a now) = (access_at f l k a now).0
apply f l (sweeps now) = (sweep_idle f l now).0
apply f l drains = (take_debt_forgiven_evictions l).0

abbrev pub run : (f : Float) → RateLimiter (f.F) → List Operation → RateLimiter (f.F)
run f l [] = l
run f l (o ∷ os) = run f (apply f l o) os

module _ (f : Float) where
  open f use {F}

  drain-IsValid : (l : RateLimiter F) → IsValid l → IsValid (take_debt_forgiven_evictions l).0
  unfolding take_debt_forgiven_evictions
  drain-IsValid l v = record { linked = v.linked; room = v.room; bounded = v.bounded }

  drain-next :
      (l : RateLimiter F) → (take_debt_forgiven_evictions l).0.lru.next_order ≡ l.lru.next_order
  unfolding take_debt_forgiven_evictions
  drain-next l = refl

  new-IsValid : (rate max_buckets : ℕ) → IsValid (with_max_buckets f rate max_buckets)
  unfolding with_max_buckets lookup get
  new-IsValid rate max_buckets = record {
    linked = record {
      indexed = λ k b found. absurd (ground arith);
      owned = λ d o k got. absurd (nothing d o k got);
      ascending = λ d. sorted d;
      apart = λ o j k p q. absurd (ground arith);
    };
    room = ground arith;
    bounded = ground arith;
  }
    where
      nothing :
          (d : Bool) (o : ℕ) (k : Text)
          → get o (index_of (with_max_buckets f rate max_buckets).lru d) ≢ some k
      nothing true o k got = ground arith
      nothing false o k got = ground arith

      sorted : (d : Bool) → IsAscending (index_of (with_max_buckets f rate max_buckets).lru d)
      sorted true = tt
      sorted false = tt

  scan_bucket-next :
      (l : RateLimiter F) (now : ℕ) (k : Text) (b : Bucket F)
      → (scan_bucket f l now k b).0.lru.next_order ≡ l.lru.next_order
  unfolding scan_bucket
  scan_bucket-next l now k b = ground arith

  scan_key-next :
      (l : RateLimiter F) (now : ℕ) (k : Text)
      → (scan_key f l now k).0.lru.next_order ≡ l.lru.next_order
  unfolding scan_key
  scan_key-next l now k = elim (Option-cases (lookup k l.entries)) [
    | inl missing ↦ rw (missing, scan_key) refl
    | inr (b, found) ↦ rw (found, scan_key) (scan_bucket-next l now k b)
  ]

  scan-next :
      (l : RateLimiter F) (now : ℕ) (ks : List Text)
      → (scan f l now ks).0.lru.next_order ≡ l.lru.next_order
  unfolding scan
  scan-next l now [] = refl
  scan-next l now (k ∷ ks) = scan-next (scan_key f l now k).0 now ks ∙ scan_key-next l now k

  drop_bucket-next :
      (l : RateLimiter F) (k : Text) → (drop_bucket l k).lru.next_order ≡ l.lru.next_order
  unfolding drop_bucket unlink
  drop_bucket-next l k = ground arith

  drop_all-next :
      (l : RateLimiter F) (ks : List Text) → (drop_all l ks).lru.next_order ≡ l.lru.next_order
  unfolding drop_all
  drop_all-next l [] = refl
  drop_all-next l (k ∷ ks) = drop_all-next (drop_bucket l k) ks ∙ drop_bucket-next l k

  sweep_idle-next :
      (l : RateLimiter F) (now : ℕ) → (sweep_idle f l now).0.lru.next_order ≡ l.lru.next_order
  unfolding sweep_idle
  sweep_idle-next l now = elim (Bool-cases (l.rate == 0)) [
    | inl off ↦ rw off refl
    | inr on ↦ rw on (
        drop_all-next (scan f l now (keys l.entries)).0 (scan f l now (keys l.entries)).1
        ∙ scan-next l now (keys l.entries))
  ]

  apply-IsValid :
      (l : RateLimiter F) (o : Operation)
      → IsValid l
      → l.lru.next_order + 1 < u64_mod
      → IsValid (apply f l o) × ((apply f l o).lru.next_order ≤ l.lru.next_order + 1)
  apply-IsValid l (accesses k a now) v fits =
      (access_at-IsValid f l k a now v fits, access_at-next f l k a now v fits)
  apply-IsValid l (sweeps now) v fits =
      (sweep_idle-IsValid f l now v, omega (arith, sweep_idle-next l now))
  apply-IsValid l drains v fits = (drain-IsValid l v, omega (arith, drain-next l))

  run-IsValid :
      (l : RateLimiter F) (os : List Operation)
      → IsValid l
      → l.lru.next_order + length os < u64_mod
      → IsValid (run f l os)
  run-IsValid l [] v fits = v
  run-IsValid l (o ∷ os) v fits =
      let (v', next) = apply-IsValid l o v (omega arith) in
      run-IsValid (apply f l o) os v' (omega (arith, next))

  new-next : (rate max_buckets : ℕ) → (with_max_buckets f rate max_buckets).lru.next_order ≡ 0
  unfolding with_max_buckets
  new-next rate max_buckets = refl

-- From an empty limiter, fewer than 2^64 operations (accesses, sweeps and drains of the counter, in
-- any order, at any clock readings) keep the limiter well formed: every bucket stands in the
-- recency index of its flag at its own place, each place of an index belongs to one bucket, and
-- there are at most `max_buckets` buckets.
pub run_of_new-IsValid :
    (f : Float) (rate max_buckets : ℕ) (os : List Operation)
    → length os < u64_mod
    → IsValid (run f (with_max_buckets f rate max_buckets) os)
run_of_new-IsValid f rate max_buckets os few =
    run-IsValid f (with_max_buckets f rate max_buckets) os (new-IsValid f rate max_buckets)
      (omega (arith, new-next f rate max_buckets))
