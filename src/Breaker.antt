-- ===== src/Breaker.antt =====
-- src/domain/breaker.rs: the circuit breaker of one Redis pool. The reading of the injected clock
-- is an argument, in nanoseconds; durations are nanoseconds too. The mutex makes every method
-- atomic, so a method is a function of the state.
pub mod Executor
pub mod Invariant
pub mod Probe
pub mod Cooldown
pub mod Threshold
mod Tests
use srh_rs.Base.{
  ℕ, ◌+◌, ◌-◌, ◌/◌, ◌%◌, Bool, true, false, ◌&&◌, not, Option, none, some, Result, ok, err, ltb,
  leb, ◌==◌, if◌then◌else◌, wrapping_add, saturating_add,
}

pub data BreakerState : Type 0 where
  closed half_open open_state : BreakerState

pub record BreakerPermit : Type 0 where
  pub generation : ℕ
  pub probe : Bool

-- `Opened`, `ProbeStarted` and `Closed`.
pub data BreakerTransition : Type 0 where
  opened probe_started closed_again : BreakerTransition

pub record BreakerAdmission : Type 0 where
  pub permit : BreakerPermit
  pub transition : Option BreakerTransition

pub record Inner : Type 0 where
  pub state : BreakerState
  pub consecutive_failures : ℕ
  pub opened_at : Option ℕ
  pub generation : ℕ

pub record Breaker : Type 0 where
  pub failure_threshold : ℕ
  pub cooldown : ℕ
  pub inner : Inner
  pub open inner use *

abbrev pub second : ℕ
second = 1000000000

unfoldable pub seconds_ceil : ℕ → ℕ
seconds_ceil duration =
    saturating_add (duration / second) (if ltb 0 (duration % second) then 1 else 0)

unfoldable pub new : ℕ → ℕ → Breaker
new failure_threshold cooldown = record {
  failure_threshold = failure_threshold;
  cooldown = cooldown;
  inner = record { state = closed; consecutive_failures = 0; opened_at = none; generation = 0 };
}

-- The time since `opened_at`, which is zero without one. `Instant` subtraction saturates.
unfoldable pub elapsed_since : Option ℕ → ℕ → ℕ
elapsed_since none now = 0
elapsed_since (some since) now = now - since

-- The admission of the `Open` branch once the cooldown has passed.
abbrev probing : Breaker → Breaker
probing b = record b {
  inner = record b.inner { state = half_open; generation = wrapping_add b.generation 1 };
}

abbrev permit_of : Breaker → Bool → BreakerPermit
permit_of b probe = record { generation = b.generation; probe = probe }

unfoldable pub admit : Breaker → ℕ → Breaker × Result BreakerAdmission ℕ
unfolding elapsed_since seconds_ceil
admit b now = elim b.state [
  | closed ↦ (b, ok (record { permit = permit_of b false; transition = none }))
  | half_open ↦ (b, err (seconds_ceil b.cooldown))
  | open_state ↦
      let elapsed = elapsed_since b.opened_at now in
      if leb b.cooldown elapsed
      then (
        probing b,
        ok (record { permit = permit_of (probing b) true; transition = some probe_started }),
      )
      else (b, err (seconds_ceil (b.cooldown - elapsed)))
]

abbrev pub is_half_open : BreakerState → Bool
is_half_open half_open = true
is_half_open _ = false

abbrev pub is_closed : BreakerState → Bool
is_closed closed = true
is_closed _ = false

-- The outcome of a half-open probe.
record_probe : Breaker → Bool → ℕ → Breaker × Option BreakerTransition
record_probe b true now = (
  record b {
    inner = record b.inner {
      state = open_state;
      opened_at = some now;
      generation = wrapping_add b.generation 1;
    };
  },
  some opened,
)
record_probe b false now = (
  record b {
    inner = record b.inner {
      state = closed;
      consecutive_failures = 0;
      opened_at = none;
      generation = wrapping_add b.generation 1;
    };
  },
  some closed_again,
)

-- The outcome of a request that the closed breaker admitted. The counter is a `usize`; that it
-- does not overflow is part of the invariant.
record_closed : Breaker → Bool → ℕ → Breaker × Option BreakerTransition
record_closed b true now =
    let failures = b.consecutive_failures + 1 in
    if leb b.failure_threshold failures
    then (
      record b {
        inner = record {
          state = open_state;
          consecutive_failures = failures;
          opened_at = some now;
          generation = wrapping_add b.generation 1;
        };
      },
      some opened,
    )
    else (record b { inner = record b.inner { consecutive_failures = failures } }, none)
record_closed b false now = (record b { inner = record b.inner { consecutive_failures = 0 } }, none)

-- `Breaker::record`.
unfoldable pub record_outcome :
    Breaker → BreakerPermit → Bool → ℕ → Breaker × Option BreakerTransition
unfolding record_probe record_closed
record_outcome b permit failed now =
    if not (permit.generation == b.generation)
    then (b, none)
    else if permit.probe
    then (if not (is_half_open b.state) then (b, none) else record_probe b failed now)
    else (if not (is_closed b.state) then (b, none) else record_closed b failed now)

unfoldable pub cancel : Breaker → BreakerPermit → Breaker
cancel b permit =
    if not permit.probe
    then b
    else if is_half_open b.state && permit.generation == b.generation
    then record b {
      inner = record b.inner { state = open_state; generation = wrapping_add b.generation 1 };
    }
    else b

-- One call on the shared breaker, with the clock's reading; which permit a caller presents is left
-- open.
pub data Call : Type 0 where
  admits : ℕ → Call
  records : BreakerPermit → Bool → ℕ → Call
  cancels : BreakerPermit → Call

unfoldable pub step : Breaker → Call → Breaker
unfolding admit record_outcome cancel
step b (admits now) = (admit b now).0
step b (records permit failed now) = (record_outcome b permit failed now).0
step b (cancels permit) = cancel b permit
