-- ===== src/Http/Pipeline.antt =====
-- src/http/pipeline.rs: the handler of a pipeline.
use srh_rs.Base.{
  ℕ, List, [], ◌∷◌, Option, none, some, Text, text, Result, ok, err, length, ◌==◌, if◌then◌else◌,
}
use srh_rs.Identity.{Identity}
use srh_rs.Resp.{RespValue, RedisCommand, ExecError, transport, timeout, redis}
use srh_rs.Resp
use srh_rs.RateLimit.Floats.{Float}
use srh_rs.Acl.{AclError, check, forbidden}
use srh_rs.Compat.{normalize}
use srh_rs.Convert.{Encoding}
use srh_rs.Failure.{AppError, bad_request, internal, response_too_large, from_acl}
use srh_rs.Http.Effect.{
  Handler, ◌>>=◌, ◌>>◌, lift, Settings, Backend, Read, read_body, ParseError, invalid,
  pipeline_too_large, request_too_complex, response_encoding, charge_rate_limit, acquire, send,
  charge_reply, Slot, result, error,
}

abbrev pub pipeline_failure : ParseError → AppError
pipeline_failure invalid = bad_request (text "Invalid command")
pipeline_failure pipeline_too_large = bad_request (text "Pipeline too large")
pipeline_failure request_too_complex = bad_request (text "Request too complex")

-- The policy's message for each command, if it refuses it, and the commands it permits.
abbrev pub Sorted : Type 0
Sorted = List RedisCommand × List (Option Text)

abbrev pub place :
    RedisCommand → Result (Unit {0}) AclError → Result Sorted AppError → Result Sorted AppError
place command (ok u) (ok (allowed, slots)) = ok (normalize command ∷ allowed, none ∷ slots)
place command (ok u) (err e) = err e
place command (err (forbidden message)) (ok (allowed, slots)) = ok (allowed, some message ∷ slots)
place command (err (forbidden message)) (err e) = err e
place command (err AclError.invalid_command) rest = err (from_acl AclError.invalid_command)

-- The loop over the commands. Its only error is that of a command without a name, so it does not
-- matter that the rest is sorted first.
unfoldable pub sort_commands : (Text → Text) → Identity → List RedisCommand → Result Sorted AppError
sort_commands sha256 identity [] = ok ([], [])
sort_commands sha256 identity (command ∷ commands) =
    place command (check sha256 identity command) (sort_commands sha256 identity commands)

-- The slot of one result, and the budget that is left.
unfoldable pub slot_of : Encoding → ℕ → Result RespValue ExecError → Result (Slot × ℕ) AppError
slot_of encoding budget (ok value) = elim (charge_reply value encoding budget) [
  | ok left ↦ ok (result value encoding, left)
  | err e ↦ err e
]
slot_of encoding budget (err (redis message)) = ok (error message, budget)
slot_of encoding budget (err Resp.response_too_large) = err response_too_large
slot_of encoding budget (err timeout) = ok (error (text "Redis command timed out"), budget)
slot_of encoding budget (err (transport message)) =
    ok (error (text "Internal server error"), budget)

abbrev pub prepend : Slot → Result (List Slot) AppError → Result (List Slot) AppError
prepend slot (ok slots) = ok (slot ∷ slots)
prepend slot (err e) = err e

-- The loop over the slots, which takes a result for each that is not denied, and the check that no
-- result is left.
unfoldable pub respond :
    Encoding
    → ℕ
    → List (Option Text)
    → List (Result RespValue ExecError)
    → Result (List Slot) AppError
unfolding slot_of
respond encoding budget [] [] = ok []
respond encoding budget [] (r ∷ rs) =
    err (internal (text "pipeline executor returned too many results"))
respond encoding budget (some message ∷ slots) rs =
    prepend (error message) (respond encoding budget slots rs)
respond encoding budget (none ∷ slots) [] =
    err (internal (text "pipeline executor returned too few results"))
respond encoding budget (none ∷ slots) (r ∷ rs) = elim (slot_of encoding budget r) [
  | ok (slot, left) ↦ prepend slot (respond encoding left slots rs)
  | err e ↦ err e
]

module _ (f : Float) (sha256 : Text → Text) (parse : Text → Result (List RedisCommand) ParseError)
    (cfg : Settings) (backend : Backend) where
  open f use {F}

  unfoldable pub parsed :
      Identity → ℕ → Result (List RedisCommand) ParseError → Handler F (List RedisCommand)
  parsed identity now (ok commands) = lift (ok commands)
  parsed identity now (err e) = do
    charge_rate_limit f identity.bucket_key 1 now
    lift (err (pipeline_failure e))

  -- The permitted commands go to Redis in one batch, if there are any.
  unfoldable pub run_allowed :
      Identity → List RedisCommand → Handler F (List (Result RespValue ExecError))
  run_allowed identity [] = lift (ok [])
  run_allowed identity (command ∷ commands) = do
    acquire cfg backend identity.pool
    send (command ∷ commands)
    lift (ok (backend.pipeline (command ∷ commands)))

  unfoldable pub run_sorted : Identity → Option Text → ℕ → Sorted → Handler F (List Slot)
  unfolding run_allowed respond
  run_sorted identity encoding_header command_count (allowed, slots) =
      if command_count == 0 then lift (ok []) else do
        results ← run_allowed identity allowed
        lift (respond (response_encoding encoding_header) cfg.max_response_bytes slots results)

  unfoldable pub execute : Identity → Option Text → Read → ℕ → Handler F (List Slot)
  unfolding parsed run_sorted sort_commands
  execute identity encoding_header request now = do
    body ← lift (read_body request)
    commands ← parsed identity now (parse body)
    charge_rate_limit f identity.bucket_key (length commands) now
    sorted ← lift (sort_commands sha256 identity commands)
    run_sorted identity encoding_header (length commands) sorted
