-- ===== src/Resp.antt =====
-- src/domain/resp.rs and the command type of src/ports/mod.rs: what passes between the HTTP layer,
-- the Redis client and the circuit breaker.
use srh_rs.Base.{ℕ, List, [], ◌∷◌, Text, text, ◌++◌, Option, Result, ok, err, some, none}

-- `i64`; `negsuc n` is -(n + 1).
pub data ℤ : Type 0 where
  pos : ℕ → ℤ
  negsuc : ℕ → ℤ

mutual
  pub data RespValue : Type 0 where
    simple : Text → RespValue
    bulk : Text → RespValue
    int : ℤ → RespValue
    nil : RespValue
    array : RespValues → RespValue

  pub data RespValues : Type 0 where
    done : RespValues
    more : RespValue → RespValues → RespValues

abbrev pub values : RespValues → List RespValue
values done = []
values (more v vs) = v ∷ values vs

pub data ExecError : Type 0 where
  transport : Text → ExecError
  timeout : ExecError
  redis : Text → ExecError
  response_too_large : ExecError

pub data AcquireError : Type 0 where
  unknown_pool : Text → AcquireError
  overloaded : AcquireError
  pool_open : (retry_after_secs : ℕ) → AcquireError
  internal : Text → AcquireError

pub data PoolReadinessStatus : Type 0 where
  ready : PoolReadinessStatus
  unavailable : Text → PoolReadinessStatus

pub record PoolReadiness : Type 0 where
  pub pool : Text
  pub status : PoolReadinessStatus

-- The `Display` of `ExecError` and `AcquireError`.
unfoldable pub show_exec_error : ExecError → Text
show_exec_error (transport message) = message
show_exec_error (redis message) = message
show_exec_error timeout = text "Redis command timed out"
show_exec_error response_too_large = text "Redis response is too large"

unfoldable pub show_acquire_error : AcquireError → Text
show_acquire_error (unknown_pool pool) = text "unknown Redis pool '" ++ (pool ++ text "'")
show_acquire_error overloaded = text "Redis pool is overloaded"
show_acquire_error (pool_open retry_after_secs) = text "Redis backend is unavailable"
show_acquire_error (internal message) = message

pub record RedisCommand : Type 0 where
  pub name : Text
  pub args : List Text

-- The error of one reply, as `Result::err` gives it.
abbrev pub error_of {ℓ} : {A : Type ℓ} → Result A ExecError → Option ExecError
error_of (ok a) = none
error_of (err e) = some e

-- `results.iter().filter_map(|result| result.as_ref().err())`
abbrev pub errors {ℓ} : {A : Type ℓ} → List (Result A ExecError) → List ExecError
errors [] = []
errors (ok a ∷ rs) = errors rs
errors (err e ∷ rs) = e ∷ errors rs
