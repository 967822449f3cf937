-- ===== src/Http/Effect.antt =====
-- src/http/command.rs and src/http/parse.rs: the state of the server that the handlers change, and
-- the steps they share.
use srh_rs.Base.{
  ℕ, ◌+◌, List, [], ◌∷◌, ◌++◌, Option, none, some, Text, text, eq_ignore_ascii_case, Result, ok,
  err, map_err, if◌then◌else◌,
}
use srh_rs.Resp.{
  RespValue, ExecError, transport, timeout, redis, AcquireError, unknown_pool, RedisCommand,
}
use srh_rs.Resp
use srh_rs.RateLimit.Floats.{Float}
use srh_rs.RateLimit.{
  RateLimiter, RateLimitExceeded, charge, access_at, take_debt_forgiven_evictions,
}
use srh_rs.Convert.{Encoding, plain, base64, charge_response_budget}
use srh_rs.Failure.{
  AppError, bad_request, redis_error, rate_limited, overloaded, pool_open, response_too_large,
  request_body_timeout, internal, from_conversion,
}

-- The limiter, the batches of commands sent to Redis so far, and the metric of forgiven debts.
pub record Server (F : Type 0) : Type 0 where
  pub limiter : RateLimiter F
  pub sent : List (List RedisCommand)
  pub forgiven : ℕ

abbrev pub Handler : Type 0 → Type 0 → Type 0
Handler F A = Server F → Server F × Result A AppError

module _ {F A B : Type 0} where
  abbrev pub proceed :
      Server F × Result A AppError → (A → Handler F B) → Server F × Result B AppError
  proceed (s, ok a) k = k a s
  proceed (s, err e) k = (s, err e)

infixl 5 ◌>>=◌ ◌>>◌
abbrev pub ◌>>=◌ : {F A B : Type 0} → Handler F A → (A → Handler F B) → Handler F B
(m >>= k) s = proceed (m s) k

abbrev pub ◌>>◌ : {F B : Type 0} → Handler F (Unit {0}) → Handler F B → Handler F B
m >> k = m >>= λ _. k

abbrev pub lift : {F A : Type 0} → Result A AppError → Handler F A
lift r s = (s, r)

-- The limits of the configuration that the handlers read.
pub record Settings : Type 0 where
  pub max_response_bytes : ℕ
  pub shed_retry_after_secs : ℕ

-- The pool provider and its executors, as the handlers call them.
pub record Backend : Type 0 where
  pub acquire : Text → Option AcquireError
  pub execute : RedisCommand → Result RespValue ExecError
  pub pipeline : List RedisCommand → List (Result RespValue ExecError)
  pub transaction : List RedisCommand → Result (List (Result RespValue ExecError)) ExecError

-- Reading a body: past the deadline, cut off or over the limit, or whole.
pub data Read : Type 0 where
  late failed : Read
  whole : Text → Read

unfoldable pub read_body : Read → Result Text AppError
read_body late = err request_body_timeout
read_body failed = err (bad_request (text "Invalid command"))
read_body (whole body) = ok body

pub data ParseError : Type 0 where
  invalid pipeline_too_large request_too_complex : ParseError

-- The header's value, if it has one that is text.
unfoldable pub response_encoding : Option Text → Encoding
response_encoding none = plain
response_encoding (some value) =
    if eq_ignore_ascii_case value (text "base64") then base64 else plain

unfoldable pub map_exec_error : Settings → ExecError → AppError
map_exec_error cfg (redis message) = redis_error message
map_exec_error cfg Resp.response_too_large = response_too_large
map_exec_error cfg timeout = pool_open cfg.shed_retry_after_secs (text "Redis command timed out")
map_exec_error cfg (transport reason) = pool_open cfg.shed_retry_after_secs reason

unfoldable pub map_acquire_error : Settings → AcquireError → AppError
map_acquire_error cfg (unknown_pool pool) =
    internal (text "identity referenced unknown Redis pool '" ++ (pool ++ text "'"))
map_acquire_error cfg Resp.overloaded = overloaded cfg.shed_retry_after_secs
map_acquire_error cfg (Resp.pool_open secs) =
    pool_open secs (text "circuit breaker cooldown active")
map_acquire_error cfg (Resp.internal message) = internal message

pub data Slot : Type 0 where
  result : RespValue → Encoding → Slot
  error : Text → Slot

abbrev limited : RateLimitExceeded → AppError
limited e = rate_limited e.retry_after_secs

module _ (f : Float) where
  open f use {F}

  -- What an access to the limiter leaves on the server, the counter of forgiven debts drained.
  abbrev pub record_debt_forgiveness : Server F → RateLimiter F → Server F
  record_debt_forgiveness s l =
      let (l', count) = take_debt_forgiven_evictions l in
      record s { limiter = l'; forgiven = s.forgiven + count }

  unfoldable pub charge_rate_limit : Text → ℕ → ℕ → Handler F (Unit {0})
  charge_rate_limit bucket_key command_count now s =
      let (l, outcome) = access_at f s.limiter bucket_key (charge command_count) now in
      (record_debt_forgiveness s l, map_err limited outcome)

-- `provider.acquire(pool)`, as an error of the request.
abbrev pub acquire : {F : Type 0} → Settings → Backend → Text → Handler F (Unit {0})
acquire cfg backend pool s =
    (s, elim (backend.acquire pool) [ none ↦ ok tt | some e ↦ err (map_acquire_error cfg e) ])

-- Commands go to Redis.
abbrev pub send : {F : Type 0} → List RedisCommand → Handler F (Unit {0})
send commands s = (record s { sent = s.sent ++ (commands ∷ []) }, ok tt)

abbrev pub charge_reply : RespValue → Encoding → ℕ → Result ℕ AppError
charge_reply value encoding budget =
    map_err from_conversion (charge_response_budget value encoding budget)
