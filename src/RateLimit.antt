-- ===== src/RateLimit.antt =====
-- src/domain/rate_limit.rs: the token buckets of the credentials. Arithmetic on `f64` is an
-- interface, of which the definitions use the operations; the clock's reading is an argument, in
-- nanoseconds. The mutex makes every access atomic.
pub mod Floats
pub mod Linked
pub mod Settle
pub mod Evict
pub mod Charging
pub mod Swept
pub mod Sweep
pub mod Whole
mod Tests
use srh_rs.Base.{
  ℕ, suc, ◌+◌, ◌-◌, ◌*◌, max, min, Bool, true, false, ◌&&◌, List, [], ◌∷◌, Option, none, some, Text,
  text_eq, Map, lookup, insert, remove, length, leb, ltb, ◌==◌, if◌then◌else◌, u64_mod,
  wrapping_add, Result, ok, err, map,
}
use srh_rs.Base.Index.{Index, get, put, delete}
use Floats.{Float}

abbrev pub max_buckets_default : ℕ
max_buckets_default = 100000

-- 900 seconds.
abbrev pub idle_eviction : ℕ
idle_eviction = 900000000000

pub record RateLimitExceeded : Type 0 where
  pub retry_after_secs : ℕ

pub record Bucket (F : Type 0) : Type 0 where
  pub balance : F
  pub updated : ℕ
  pub last_access : ℕ
  pub order : ℕ
  pub key : Text
  pub indebted : Bool

pub record Lru : Type 0 where
  pub credit : Index Text
  pub debt : Index Text
  pub next_order : ℕ

pub record Buckets (F : Type 0) : Type 0 where
  pub entries : Map (Bucket F)
  pub lru : Lru

pub data Access : Type 0 where
  probe : Access
  charge : ℕ → Access

pub record RateLimiter (F : Type 0) : Type 0 where
  pub rate : ℕ
  pub capacity : F
  pub max_buckets : ℕ
  pub buckets : Buckets F
  pub open buckets use *
  pub debt_forgiven_evictions : ℕ

abbrev no_buckets : (F : Type 0) → Buckets F
no_buckets F = record { entries = []; lru = record { credit = []; debt = []; next_order = 0 } }

module _ {F : Type 0} where
  unfoldable pub unlink : Lru → Bucket F → Lru
  unlink lru bucket =
      if bucket.indebted
      then record lru { debt = delete bucket.order lru.debt }
      else record lru { credit = delete bucket.order lru.credit }

  -- `pop_first` of the index of credit, or of the index of debt if that is empty; the flag says that
  -- a debt was forgiven.
  unfoldable pub evict_one : Buckets F → Buckets F × Bool
  evict_one s = elim s.lru.credit [
    | (o, key) ∷ credit ↦
        (record { entries = remove key s.entries; lru = record s.lru { credit = credit } }, false)
    | [] ↦ elim s.lru.debt [
      | (o, key) ∷ debt ↦
          (record { entries = remove key s.entries; lru = record s.lru { debt = debt } }, true)
      | [] ↦ (s, false)
    ]
  ]

  -- The eviction before a new bucket, with the counter of forgiven debts.
  unfoldable pub make_room : RateLimiter F → RateLimiter F
  unfolding evict_one
  make_room l =
      if leb l.max_buckets (length l.entries)
      then (let (s, forgave) = evict_one l.buckets in
          record l {
            buckets = s;
            debt_forgiven_evictions =
                if forgave
                then wrapping_add l.debt_forgiven_evictions 1
                else l.debt_forgiven_evictions;
          })
      else l

  abbrev pub fresh_bucket : F → Text → ℕ → Bucket F
  fresh_bucket capacity key now = record {
    balance = capacity;
    updated = now;
    last_access = now;
    order = 0;
    key = key;
    indebted = false;
  }

  -- The removal of one idle bucket.
  unfoldable pub drop_bucket : RateLimiter F → Text → RateLimiter F
  unfolding unlink
  drop_bucket l key = elim (lookup key l.entries) [
    | none ↦ l
    | some bucket ↦ record l {
      buckets = record { entries = remove key l.entries; lru = unlink l.lru bucket };
    }
  ]

  unfoldable pub drop_all : RateLimiter F → List Text → RateLimiter F
  unfolding drop_bucket
  drop_all l [] = l
  drop_all l (key ∷ keys) = drop_all (drop_bucket l key) keys

  abbrev pub keys : Map (Bucket F) → List Text
  keys = map (λ e. e.0)

  unfoldable pub bucket_count : RateLimiter F → ℕ
  bucket_count l = length l.entries

  unfoldable pub take_debt_forgiven_evictions : RateLimiter F → RateLimiter F × ℕ
  take_debt_forgiven_evictions l =
      (record l { debt_forgiven_evictions = 0 }, l.debt_forgiven_evictions)

module _ (f : Float) where
  open f use {
    F, of_nat, secs, zero, plus, minus, times, over, negate, minimum, maximum, ceil, to_u64, lt, le,
  }

  unfoldable pub with_max_buckets : ℕ → ℕ → RateLimiter F
  with_max_buckets rate max_buckets = record {
    rate = rate;
    capacity = of_nat (min (rate * 2) (u64_mod - 1));
    max_buckets = max max_buckets 1;
    buckets = no_buckets F;
    debt_forgiven_evictions = 0;
  }

  unfoldable pub new : ℕ → RateLimiter F
  unfolding with_max_buckets
  new rate = with_max_buckets rate max_buckets_default

  -- The bucket comes back with its new place.
  unfoldable pub link : Lru → Bucket F → Lru × Bucket F
  link lru bucket =
      let indebted = lt bucket.balance zero in
      let next = record lru { next_order = wrapping_add lru.next_order 1 } in
      (
        (if indebted
            then record next { debt = put lru.next_order bucket.key lru.debt }
            else record next { credit = put lru.next_order bucket.key lru.credit }),
        record bucket { order = lru.next_order; indebted = indebted },
      )

  unfoldable pub refill : Bucket F → ℕ → ℕ → F → Bucket F
  refill bucket now rate capacity = record bucket {
    balance =
        minimum (plus bucket.balance (times (secs (now - bucket.updated)) (of_nat rate))) capacity;
    updated = now;
  }

  unfoldable pub exceeded : ℕ → F → RateLimitExceeded
  exceeded rate balance =
      let deficit = maximum (negate balance) zero in
      record { retry_after_secs = to_u64 (maximum (ceil (over deficit (of_nat rate))) (of_nat 1)) }

  spend : Bucket F → Access → Bucket F
  spend bucket probe = bucket
  spend bucket (charge count) = record bucket {
    balance = minus bucket.balance (of_nat (max count 1));
  }

  unfoldable pub settle : ℕ → Bucket F → Access → Bucket F × Result (Unit {0}) RateLimitExceeded
  unfolding exceeded spend
  settle rate bucket access =
      if le bucket.balance zero
      then (bucket, err (exceeded rate bucket.balance))
      else (spend bucket access, ok tt)

  unfoldable pub access_known :
      RateLimiter F
      → Text
      → Bucket F
      → Access
      → ℕ
      → RateLimiter F × Result (Unit {0}) RateLimitExceeded
  unfolding unlink refill settle link
  access_known l key bucket access now =
      let lru = unlink l.lru bucket in
      let refilled = record (refill bucket now l.rate l.capacity) { last_access = now } in
      let (settled, result) = settle l.rate refilled access in
      let (lru', linked) = link lru settled in
      (record l { buckets = record { entries = insert key linked l.entries; lru = lru' } }, result)

  unfoldable pub access_new :
      RateLimiter F → Text → Access → ℕ → RateLimiter F × Result (Unit {0}) RateLimitExceeded
  unfolding make_room settle link
  access_new l key access now =
      let l' = make_room l in
      let (settled, result) = settle l.rate (fresh_bucket l.capacity key now) access in
      let (lru', linked) = link l'.lru settled in
      (
        record l' { buckets = record { entries = insert key linked l'.entries; lru = lru' } },
        result,
      )

  unfoldable pub access_at :
      RateLimiter F → Text → Access → ℕ → RateLimiter F × Result (Unit {0}) RateLimitExceeded
  unfolding access_known access_new
  access_at l key access now = if l.rate == 0 then (l, ok tt) else elim (lookup key l.entries) [
    | some bucket ↦ access_known l key bucket access now
    | none ↦ access_new l key access now
  ]

  -- One turn of the scan: the bucket is refilled and, if it has repaid its debt by waiting, moved to
  -- the index of credit. The flag says that it is idle.
  unfoldable pub scan_bucket : RateLimiter F → ℕ → Text → Bucket F → RateLimiter F × Bool
  unfolding refill
  scan_bucket l now key bucket =
      let refilled = refill bucket now l.rate l.capacity in
      let repaid = refilled.indebted && le zero refilled.balance in
      let lru =
        if repaid
        then record l.lru {
          debt = delete refilled.order l.lru.debt;
          credit = put refilled.order key l.lru.credit;
        }
        else l.lru in
      let kept = if repaid then record refilled { indebted = false } else refilled in
      (
        record l { buckets = record { entries = insert key kept l.entries; lru = lru } },
        le zero kept.balance && leb idle_eviction (now - kept.last_access),
      )

  -- An entry that the scan meets, by its key.
  unfoldable pub scan_key : RateLimiter F → ℕ → Text → RateLimiter F × Bool
  unfolding scan_bucket
  scan_key l now key = elim (lookup key l.entries) [
    | none ↦ (l, false)
    | some bucket ↦ scan_bucket l now key bucket
  ]

  -- The loop over the entries, by their keys, and the keys of the idle buckets.
  unfoldable pub scan : RateLimiter F → ℕ → List Text → RateLimiter F × List Text
  unfolding scan_key
  scan l now [] = (l, [])
  scan l now (key ∷ keys) =
      let (met, is_idle) = scan_key l now key in
      let (l', idle) = scan met now keys in (l', if is_idle then key ∷ idle else idle)

  unfoldable pub sweep_idle : RateLimiter F → ℕ → RateLimiter F × ℕ
  unfolding scan drop_all
  sweep_idle l now =
      if l.rate == 0
      then (l, 0)
      else let (scanned, idle) = scan l now (keys l.entries) in (drop_all scanned idle, length idle)
