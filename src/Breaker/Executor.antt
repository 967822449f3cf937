-- ===== src/Breaker/Executor.antt =====
-- src/adapters/breaker_executor.rs: an executor that reports each outcome to the breaker of its
-- pool. The reply of the wrapped executor is an argument, and so is the breaker as it stands when
-- that reply has come, since other requests use the breaker meanwhile.
use srh_rs.Base.{
  ℕ, ◌+◌, ◌<◌, ◌≤◌, ◌≡◌, refl, List, [], ◌∷◌, Option, none, some, arith, Bool, true, false, Result,
  ok, err, any, if◌then◌else◌, u64_mod,
}
use srh_rs.Resp.{
  ExecError, transport, timeout, redis, response_too_large, RespValue, error_of, errors,
}
use srh_rs.Breaker.{
  Breaker, BreakerPermit, BreakerTransition, closed, open_state, record_outcome, cancel,
}
use srh_rs.Breaker.Probe.{is_live}

pub record BreakerExecutor : Type 0 where
  pub permit : BreakerPermit
  pub recorded : Bool

unfoldable pub wrap : BreakerPermit → BreakerExecutor
wrap permit = record { permit = permit; recorded = false }

unfoldable pub counts_as_failure : ExecError → Bool
counts_as_failure (transport _) = true
counts_as_failure timeout = true
counts_as_failure (redis _) = false
counts_as_failure response_too_large = false

-- The executor, the breaker and the transition to announce.
abbrev pub Reported : Type 0
Reported = BreakerExecutor × Breaker × Option BreakerTransition

-- `BreakerExecutor::record`.
unfoldable pub report : BreakerExecutor → Breaker → List ExecError → ℕ → Reported
unfolding record_outcome counts_as_failure
report x b found now =
    let failed = any counts_as_failure found in
    let (b', transition) = record_outcome b x.permit failed now in
    (record x { recorded = true }, b', transition)

-- An `Option` as an iterator.
abbrev to_list {ℓ} : {A : Type ℓ} → Option A → List A
to_list none = []
to_list (some a) = a ∷ []

unfoldable pub execute : BreakerExecutor → Breaker → Result RespValue ExecError → ℕ → Reported
unfolding report
execute x b result now = report x b (to_list (error_of result)) now

unfoldable pub pipeline :
    BreakerExecutor → Breaker → List (Result RespValue ExecError) → ℕ → Reported
unfolding report
pipeline x b results now = report x b (errors results) now

unfoldable pub transaction :
    BreakerExecutor → Breaker → Result (List (Result RespValue ExecError)) ExecError → ℕ → Reported
unfolding report
transaction x b (ok slots) now = report x b (errors slots) now
transaction x b (err error) now = report x b (error ∷ []) now

-- `Drop`.
unfoldable pub drop : BreakerExecutor → Breaker → Breaker
unfolding cancel
drop x b = if x.recorded then b else cancel b x.permit

-- What becomes of a lease: a reply to its one call, or the request goes away without one.
pub data Use : Type 0 where
  executed : Result RespValue ExecError → ℕ → Use
  pipelined : List (Result RespValue ExecError) → ℕ → Use
  transacted : Result (List (Result RespValue ExecError)) ExecError → ℕ → Use
  abandoned : Use

-- `ExecutorHandle`'s `…_and_release`: the call, then the drop of the executor.
unfoldable pub release : BreakerPermit → Breaker → Use → Breaker
unfolding wrap execute pipeline transaction drop
release permit b (executed result now) =
    let (x, b', _) = execute (wrap permit) b result now in drop x b'
release permit b (pipelined results now) =
    let (x, b', _) = pipeline (wrap permit) b results now in drop x b'
release permit b (transacted result now) =
    let (x, b', _) = transaction (wrap permit) b result now in drop x b'
release permit b abandoned = drop (wrap permit) b

-- Whether a use reports a failure of the backend.
unfoldable pub fails : Use → Bool
unfolding counts_as_failure
fails (executed result now) = any counts_as_failure (to_list (error_of result))
fails (pipelined results now) = any counts_as_failure (errors results)
fails (transacted (ok slots) now) = any counts_as_failure (errors slots)
fails (transacted (err error) now) = any counts_as_failure (error ∷ [])
fails abandoned = false

abbrev pub is_abandoned : Use → Bool
is_abandoned abandoned = true
is_abandoned _ = false

-- A lease that reports once acts on the breaker as one `record` with the use's verdict.
pub release_reports :
    (permit : BreakerPermit) (b : Breaker) (use' : Use)
    → is_abandoned use' ≡ false
    → (now : ℕ) × (release permit b use' ≡ (record_outcome b permit (fails use') now).0)
unfolding release fails
release_reports permit b (executed result now) h = (now, refl)
release_reports permit b (pipelined results now) h = (now, refl)
release_reports permit b (transacted (ok slots) now) h = (now, refl)
release_reports permit b (transacted (err error) now) h = (now, refl)
release_reports permit b abandoned h = cc

record-settles :
    (b : Breaker) (p : BreakerPermit) (failed : Bool) (now : ℕ)
    → b.generation < u64_mod
    → is_live b p ≡ true
    → (is_live (record_outcome b p failed now).0 p ≡ false)
      × ((record_outcome b p failed now).0.state ≡ (if failed then open_state else closed))
unfolding record_outcome
record-settles b p true now h live = (ground arith, ground arith)
record-settles b p false now h live = (ground arith, ground arith)

-- A lease that holds the probe of the half-open breaker always gives it back, whatever becomes of
-- it: afterwards the permit is spent, and the breaker is closed if the backend answered, and open
-- if it failed or the request went away.
pub release-settles :
    (b : Breaker) (p : BreakerPermit) (use' : Use)
    → b.generation < u64_mod
    → is_live b p ≡ true
    → (is_live (release p b use') p ≡ false)
      × ((release p b use').state
          ≡ (if fails use' then open_state else if is_abandoned use' then open_state else closed))
unfolding release fails drop wrap
release-settles b p abandoned h live = unfold cancel in (ground arith, ground arith)
release-settles b p (executed result now) h live =
    record-settles b p (fails (executed result now)) now h live
release-settles b p (pipelined results now) h live =
    record-settles b p (fails (pipelined results now)) now h live
release-settles b p (transacted (ok slots) now) h live =
    record-settles b p (fails (transacted (ok slots) now)) now h live
release-settles b p (transacted (err error) now) h live =
    record-settles b p (fails (transacted (err error) now)) now h live

record-counts :
    (b : Breaker) (p : BreakerPermit) (failed : Bool) (now : ℕ)
    → (record_outcome b p failed now).0.consecutive_failures
      ≤ (if failed then b.consecutive_failures + 1 else b.consecutive_failures)
unfolding record_outcome
record-counts b p true now = ground arith
record-counts b p false now = ground arith

-- One lease adds at most one failure to the counter, however many of its commands failed; without
-- a transport error or a timeout among them it adds none.
pub release_counts_once :
    (b : Breaker) (p : BreakerPermit) (use' : Use)
    → ((release p b use').consecutive_failures
        ≤ (if fails use' then b.consecutive_failures + 1 else b.consecutive_failures))
unfolding release fails
release_counts_once b p (executed result now) = record-counts b p _ now
release_counts_once b p (pipelined results now) = record-counts b p _ now
release_counts_once b p (transacted (ok slots) now) = record-counts b p _ now
release_counts_once b p (transacted (err error) now) = record-counts b p _ now
release_counts_once b p abandoned = unfold drop wrap cancel fails in ground arith
