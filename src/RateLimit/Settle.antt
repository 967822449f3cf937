-- ===== src/RateLimit/Settle.antt =====
-- src/domain/rate_limit.rs: what an access answers, and what it does to the balances.
use srh_rs.Base.{
  ℕ, ◌-◌, ◌≡◌, ◌≢◌, true, false, some, Text, text_eq_iff, text_eq_refl, lookup, lookup-insert,
  arith, max, Result, ok, err, ap, subst, sym,
}
use srh_rs.RateLimit.Floats.{Float}
use srh_rs.RateLimit.{
  Bucket, RateLimiter, RateLimitExceeded, Access, probe, charge, link, unlink, refill, settle,
  exceeded, access_known, access_at,
}
use srh_rs.RateLimit.Charging.{access_of_known}

module _ (f : Float) where
  open f use {
    F, of_nat, zero, lt, le, minus, plus, times, secs, minimum, to_u64, maximum, maximum-to_u64,
  }

  -- The balance that a credential has when it comes back: what it had, plus the rate times the
  -- seconds since, up to the capacity.
  pub balance_at : RateLimiter F → Bucket F → ℕ → F
  balance_at l b now =
      minimum (plus b.balance (times (secs (now - b.updated)) (of_nat l.rate))) l.capacity

  -- What an admitted access leaves: a probe takes nothing, and a charge takes its commands in full,
  -- one at least, even if that makes a debt.
  pub left_by : Access → F → F
  left_by probe x = x
  left_by (charge n) x = minus x (of_nat (max n 1))

  pub record Answers (l : RateLimiter F) (k : Text) (b : Bucket F) (a : Access) (now : ℕ)
      (r : RateLimiter F × Result (Unit {0}) RateLimitExceeded) : Type 0 where
    pub after : Bucket F
    pub held : lookup k r.0.entries ≡ some after
    pub dated : (after.updated ≡ now) × (after.last_access ≡ now)
    pub refused :
        le (balance_at l b now) zero ≡ true
        → (r.1 ≡ err (exceeded f l.rate (balance_at l b now)))
          × (after.balance ≡ balance_at l b now)
    pub admitted :
        le (balance_at l b now) zero ≡ false
        → (r.1 ≡ ok tt) × (after.balance ≡ left_by a (balance_at l b now))
    pub others : (j : Text) → k ≢ j → lookup j r.0.entries ≡ lookup j l.entries

  settle-refused :
      (rate : ℕ) (b : Bucket F) (a : Access)
      → le b.balance zero ≡ true
      → settle f rate b a ≡ (b, err (exceeded f rate b.balance))
  unfolding settle
  settle-refused rate b a h = ground arith

  settle-admitted :
      (rate : ℕ) (b : Bucket F) (a : Access)
      → le b.balance zero ≡ false
      → ((settle f rate b a).1 ≡ ok tt) × ((settle f rate b a).0.balance ≡ left_by a b.balance)
  unfolding settle left_by
  settle-admitted rate b probe h = ground arith
  settle-admitted rate b (charge n) h = ground arith

  settle-dates :
      (rate : ℕ) (b : Bucket F) (a : Access)
      → ((settle f rate b a).0.updated ≡ b.updated)
        × ((settle f rate b a).0.last_access ≡ b.last_access)
  unfolding settle
  settle-dates rate b probe = ground arith
  settle-dates rate b (charge n) = ground arith

  known-Answers :
      (l : RateLimiter F) (k : Text) (b : Bucket F) (a : Access) (now : ℕ)
      → Answers l k b a now (access_known f l k b a now)
  unfolding access_known refill link balance_at
  known-Answers l k b a now =
      let ready : Bucket F = record (refill f b now l.rate l.capacity) { last_access = now } in
      let done = settle f l.rate ready a in
      let put' = (link f (unlink l.lru b) done.0).1 in
      record {
        after = put';
        held = ground (arith, lookup-insert k k put' l.entries, text_eq_refl k);
        dated = settle-dates l.rate ready a;
        refused = λ h.
            let e = settle-refused l.rate ready a h in (ap (λ r. r.1) e, ap (λ r. r.0.balance) e);
        admitted = settle-admitted l.rate ready a;
        others = λ j ne. ground (arith, lookup-insert k j put' l.entries, text_eq_iff k j);
      }

  -- An access of a credential that has a bucket, with limiting on: it is refused exactly if its
  -- refilled balance is not positive, and then nothing is charged; otherwise a probe takes nothing
  -- and a charge takes the whole count. The bucket is refilled up to the capacity either way, and no
  -- other credential's bucket changes.
  pub access_of_known-Answers :
      (l : RateLimiter F) (k : Text) (b : Bucket F) (a : Access) (now : ℕ)
      → l.rate ≢ 0
      → lookup k l.entries ≡ some b
      → Answers l k b a now (access_at f l k a now)
  access_of_known-Answers l k b a now on found =
      subst (Answers l k b a now) (sym (access_of_known f l k b a now on found))
        (known-Answers l k b a now)
