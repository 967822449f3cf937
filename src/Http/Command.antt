-- ===== src/Http/Command.antt =====
-- src/http/command.rs: `execute`, the handler of one command.
use srh_rs.Base.{ℕ, [], ◌∷◌, Option, Text, text, Result, ok, err, map_err}
use srh_rs.Identity.{Identity}
use srh_rs.Resp.{RespValue, RedisCommand}
use srh_rs.RateLimit.Floats.{Float}
use srh_rs.Acl.{check}
use srh_rs.Compat.{normalize}
use srh_rs.Convert.{Encoding}
use srh_rs.Failure.{AppError, bad_request, from_acl}
use srh_rs.Http.Effect.{
  Handler, ◌>>=◌, ◌>>◌, lift, Settings, Backend, Read, read_body, ParseError, invalid,
  pipeline_too_large, request_too_complex, response_encoding, map_exec_error, charge_rate_limit,
  acquire, send, charge_reply,
}

abbrev pub parse_failure : ParseError → AppError
parse_failure request_too_complex = bad_request (text "Request too complex")
parse_failure invalid = bad_request (text "Invalid command")
parse_failure pipeline_too_large = bad_request (text "Invalid command")

module _ (f : Float) (sha256 : Text → Text) (parse : Text → Result RedisCommand ParseError)
    (cfg : Settings) (backend : Backend) where
  open f use {F}

  -- The parsed command, or the charge for a body that is none.
  unfoldable pub parsed : Identity → ℕ → Result RedisCommand ParseError → Handler F RedisCommand
  parsed identity now (ok command) = lift (ok command)
  parsed identity now (err e) = do
    charge_rate_limit f identity.bucket_key 1 now
    lift (err (parse_failure e))

  unfoldable pub execute : Identity → Option Text → Read → ℕ → Handler F (RespValue × Encoding)
  unfolding parsed
  execute identity encoding_header request now = do
    body ← lift (read_body request)
    command ← parsed identity now (parse body)
    charge_rate_limit f identity.bucket_key 1 now
    lift (map_err from_acl (check sha256 identity command))
    acquire cfg backend identity.pool
    send (normalize command ∷ [])
    value ← lift (map_err (map_exec_error cfg) (backend.execute (normalize command)))
    left ← lift (charge_reply value (response_encoding encoding_header) cfg.max_response_bytes)
    lift (ok (value, response_encoding encoding_header))
