-- ===== src/Http/MultiExec.antt =====
-- src/http/multi_exec.rs: the handler of a transaction.
use srh_rs.Base.{ℕ, List, [], ◌∷◌, Option, Text, text, Result, ok, err, map_err, length, map}
use srh_rs.Identity.{Identity}
use srh_rs.Resp.{RespValue, RedisCommand, ExecError}
use srh_rs.RateLimit.Floats.{Float}
use srh_rs.Acl.{AclError, check}
use srh_rs.Compat.{normalize}
use srh_rs.Convert.{Encoding}
use srh_rs.Failure.{AppError, bad_request, from_acl}
use srh_rs.Http.Effect.{
  Handler, ◌>>=◌, ◌>>◌, lift, Settings, Backend, Read, read_body, ParseError, response_encoding,
  map_exec_error, charge_rate_limit, acquire, send, Slot,
}
use srh_rs.Http.Pipeline.{slot_of, prepend, pipeline_failure}

abbrev pub both :
    Result (Unit {0}) AclError → Result (Unit {0}) AppError → Result (Unit {0}) AppError
both (ok u) rest = rest
both (err e) rest = err (from_acl e)

-- The first refusal of the policy.
unfoldable pub check_all : (Text → Text) → Identity → List RedisCommand → Result (Unit {0}) AppError
check_all sha256 identity [] = ok tt
check_all sha256 identity (command ∷ commands) =
    both (check sha256 identity command) (check_all sha256 identity commands)

-- `results.into_iter().map(..).collect()`, with the budget that the results share.
unfoldable pub respond_each :
    Encoding → ℕ → List (Result RespValue ExecError) → Result (List Slot) AppError
unfolding slot_of
respond_each encoding budget [] = ok []
respond_each encoding budget (r ∷ rs) = elim (slot_of encoding budget r) [
  | ok (slot, left) ↦ prepend slot (respond_each encoding left rs)
  | err e ↦ err e
]

module _ (f : Float) (sha256 : Text → Text) (parse : Text → Result (List RedisCommand) ParseError)
    (cfg : Settings) (backend : Backend) where
  open f use {F}

  unfoldable pub parsed :
      Identity → ℕ → Result (List RedisCommand) ParseError → Handler F (List RedisCommand)
  parsed identity now (ok []) = do
    charge_rate_limit f identity.bucket_key 1 now
    lift (err (bad_request (text "Invalid command")))
  parsed identity now (ok (command ∷ commands)) = lift (ok (command ∷ commands))
  parsed identity now (err e) = do
    charge_rate_limit f identity.bucket_key 1 now
    lift (err (pipeline_failure e))

  unfoldable pub execute : Identity → Option Text → Read → ℕ → Handler F (List Slot)
  unfolding parsed check_all respond_each
  execute identity encoding_header request now = do
    body ← lift (read_body request)
    commands ← parsed identity now (parse body)
    charge_rate_limit f identity.bucket_key (length commands) now
    lift (check_all sha256 identity commands)
    acquire cfg backend identity.pool
    send (map normalize commands)
    results ← lift (map_err (map_exec_error cfg) (backend.transaction (map normalize commands)))
    lift (respond_each (response_encoding encoding_header) cfg.max_response_bytes results)
