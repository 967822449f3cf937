-- ===== src/Breaker/Invariant.antt =====
-- src/domain/breaker.rs: what holds of the breaker's state after every method.
use srh_rs.Base.{ℕ, ◌<◌, ◌≤◌, ◌≡◌, List, [], ◌∷◌, arith, u64_mod, not, Bool, true, false, is_some}
use srh_rs.Breaker.{
  Breaker, BreakerPermit, Call, admits, records, cancels, closed, is_closed, new, admit,
  record_outcome, cancel, step,
}

-- The failure counter stays below the threshold while the breaker is closed, so that it cannot
-- overflow; `opened_at` is kept exactly while the breaker is not closed; the generation is a `u64`.
pub record IsValid (b : Breaker) : Type 0 where
  pub positive : 0 < b.failure_threshold
  pub threshold_fits : b.failure_threshold < u64_mod
  pub counted : b.state ≡ closed → b.consecutive_failures < b.failure_threshold
  pub bounded : b.consecutive_failures ≤ b.failure_threshold
  pub when_opened : is_some b.opened_at ≡ not (is_closed b.state)
  pub generation_fits : b.generation < u64_mod

pub new-IsValid :
    (threshold cooldown : ℕ)
    → 0 < threshold
    → threshold < u64_mod
    → IsValid (new threshold cooldown)
unfolding new
new-IsValid threshold cooldown p q = ground arith

admit-IsValid : (b : Breaker) (now : ℕ) → IsValid b → IsValid (admit b now).0
unfolding admit
admit-IsValid b now v = ground arith

record_outcome-IsValid :
    (b : Breaker) (permit : BreakerPermit) (failed : Bool) (now : ℕ)
    → IsValid b
    → IsValid (record_outcome b permit failed now).0
unfolding record_outcome
record_outcome-IsValid b permit true now v = ground arith
record_outcome-IsValid b permit false now v = ground arith

cancel-IsValid : (b : Breaker) (permit : BreakerPermit) → IsValid b → IsValid (cancel b permit)
unfolding cancel
cancel-IsValid b permit v = ground arith

step-IsValid : (b : Breaker) (c : Call) → IsValid b → IsValid (step b c)
unfolding step
step-IsValid b (admits now) v = admit-IsValid b now v
step-IsValid b (records permit failed now) v = record_outcome-IsValid b permit failed now v
step-IsValid b (cancels permit) v = cancel-IsValid b permit v

-- The state after a sequence of calls.
unfoldable pub run : Breaker → List Call → Breaker
run b [] = b
run b (c ∷ cs) = run (step b c) cs

run-IsValid : (b : Breaker) (cs : List Call) → IsValid b → IsValid (run b cs)
unfolding run
run-IsValid b [] v = v
run-IsValid b (c ∷ cs) v = run-IsValid (step b c) cs (step-IsValid b c v)

-- For a positive threshold that is a `u64`, after any sequence of calls with any permits on a new
-- breaker: the failure counter is at most the threshold and, while the breaker is closed, below it
-- (so adding one never overflows), `opened_at` is set exactly when the breaker is not closed, and
-- the generation fits its word.
pub run-new-IsValid :
    (threshold cooldown : ℕ) (cs : List Call)
    → 0 < threshold
    → threshold < u64_mod
    → IsValid (run (new threshold cooldown) cs)
run-new-IsValid threshold cooldown cs p q = run-IsValid _ cs (new-IsValid threshold cooldown p q)
