-- ===== src/Breaker/Threshold.antt =====
-- src/domain/breaker.rs: when a closed breaker opens.
use srh_rs.Base.{
  ℕ, zero, suc, ◌+◌, ◌<◌, ◌≤◌, ◌≡◌, refl, Bool, true, false, ◌||◌, ◌&&◌, List, [], ◌∷◌, arith,
  u64_mod, if◌then◌else◌, ◌≢◌,
}
use srh_rs.Breaker.Probe.{stale_permit}
use srh_rs.Breaker.{Breaker, BreakerPermit, closed, open_state, new, record_outcome}

-- The outcomes of requests that one closed period admitted, each with the time of its report.
unfoldable pub feed : Breaker → BreakerPermit → List (Bool × ℕ) → Breaker
unfolding record_outcome
feed b permit [] = b
feed b permit ((failed, now) ∷ outcomes) =
    feed (record_outcome b permit failed now).0 permit outcomes

-- The first `n` outcomes are failures.
unfoldable pub starts_with_failures : ℕ → List (Bool × ℕ) → Bool
starts_with_failures zero outcomes = true
starts_with_failures (suc n) [] = false
starts_with_failures (suc n) ((failed, now) ∷ outcomes) = failed && starts_with_failures n outcomes

-- Somewhere `n` failures follow one another.
unfoldable pub has_failure_run : ℕ → List (Bool × ℕ) → Bool
unfolding starts_with_failures
has_failure_run n [] = starts_with_failures n []
has_failure_run n (o ∷ outcomes) =
    starts_with_failures n (o ∷ outcomes) || has_failure_run n outcomes

starts_fewer :
    (m n : ℕ) (outcomes : List (Bool × ℕ))
    → m ≤ n
    → starts_with_failures n outcomes ≡ true
    → starts_with_failures m outcomes ≡ true
unfolding starts_with_failures
starts_fewer zero n outcomes le h = refl
starts_fewer (suc m) zero outcomes le h = absurd (omega arith)
starts_fewer (suc m) (suc n) [] le h = cc
starts_fewer (suc m) (suc n) ((failed, now) ∷ outcomes) le h =
    ground (arith, starts_fewer m n outcomes)

has_run_of_starts :
    (n : ℕ) (outcomes : List (Bool × ℕ))
    → starts_with_failures n outcomes ≡ true
    → has_failure_run n outcomes ≡ true
unfolding has_failure_run
has_run_of_starts n [] h = h
has_run_of_starts n (o ∷ outcomes) h = ground arith

-- Once the generation has moved on, later reports change nothing.
feed_stale :
    (b : Breaker) (permit : BreakerPermit) (outcomes : List (Bool × ℕ))
    → permit.generation ≢ b.generation
    → feed b permit outcomes ≡ b
unfolding feed
feed_stale b permit [] h = refl
feed_stale b permit ((failed, now) ∷ outcomes) h =
    let same = (stale_permit b permit failed now h).0 in rw same (feed_stale b permit outcomes h)

module _ (k : ℕ) where
  -- A closed breaker of threshold `k + 1`, for which `left + 1` more failures are wanted.
  record IsCounting (left : ℕ) (permit : BreakerPermit) (b : Breaker) : Type 0 where
    is_closed : b.state ≡ closed
    admitted : permit ≡ record { generation = b.generation; probe = false }
    threshold : b.failure_threshold ≡ suc k
    counted : b.consecutive_failures + left ≡ k
    fits : b.generation < u64_mod

  feed_closed :
      (b : Breaker) (permit : BreakerPermit) (outcomes : List (Bool × ℕ)) (left : ℕ)
      → IsCounting left permit b
      → (feed b permit outcomes).state ≡ (
          if starts_with_failures (suc left) outcomes || has_failure_run (suc k) outcomes
          then open_state
          else closed)
  unfolding feed has_failure_run starts_with_failures record_outcome
  feed_closed b permit [] left v = v.is_closed
  feed_closed b permit ((false, now) ∷ outcomes) left v =
      let b' = (record_outcome b permit false now).0 in
      let v' : IsCounting k permit b' = ground arith in
      ground (arith, feed_closed b' permit outcomes k v', has_run_of_starts (suc k) outcomes)
  feed_closed b permit ((true, now) ∷ outcomes) zero v =
      let b' = (record_outcome b permit true now).0 in
      let opens : b'.state ≡ open_state = ground arith in
      let moved : permit.generation ≢ b'.generation = ground arith in
      rw (feed_stale b' permit outcomes moved) opens
  feed_closed b permit ((true, now) ∷ outcomes) (suc left) v =
      let b' = (record_outcome b permit true now).0 in
      let v' : IsCounting left permit b' = ground arith in
      ground (arith, feed_closed b' permit outcomes left v', starts_fewer (suc left) k outcomes)

-- A new breaker whose first closed period reports the given outcomes is open afterwards exactly
-- if, somewhere, as many failures as the threshold followed one another without a success between;
-- otherwise it is closed.
pub opens_on_failure_run :
    (threshold cooldown : ℕ) (outcomes : List (Bool × ℕ))
    → 0 < threshold
    → (feed (new threshold cooldown) (record { generation = 0; probe = false }) outcomes).state
      ≡ (if has_failure_run threshold outcomes then open_state else closed)
unfolding new
opens_on_failure_run zero cooldown outcomes h = absurd (omega arith)
opens_on_failure_run (suc k) cooldown outcomes h =
    let start =
      feed_closed k (new (suc k) cooldown) (record { generation = 0; probe = false }) outcomes k
        (ground arith) in
    ground (arith, start, has_run_of_starts (suc k) outcomes)
