-- ===== src/Http/Audit.antt =====
-- src/http: a request with its notes for the log. What the handlers note depends on the identity and
-- on what the body parses to; here the notes stand beside the handlers' other effects.
use srh_rs.Base.{ℕ, some, Text, text, List, Result, ok, err, length, if◌then◌else◌}
use srh_rs.Identity.{Identity}
use srh_rs.Resp.{RedisCommand, PoolReadiness}
use srh_rs.RateLimit.Floats.{Float}
use srh_rs.Failure.{AppError, into_response, endpoint_label}
use srh_rs.Auth.{Authenticator}
use srh_rs.Parse.Document.{Json}
use srh_rs.Http.Effect.{Server, Settings, Backend, read_body, ParseError}
use srh_rs.Http.Health.{status_of}
use srh_rs.Http.Serve.{
  Request, Limits, Reply, value, slots, failure, report, healthy, body_too_large, not_found,
  method_not_allowed, Api, command, pipeline, multi_exec, Place, api, place_of, is_post, is_over,
  extract, serve, parse_command, parse_pipeline,
}
use srh_rs.Http.Observe.{
  AuditFields, no_fields, note_identity, note_command, Recorded, record_request,
}

-- The status of a response.
unfoldable pub status_of_reply : Reply → ℕ
unfolding into_response
status_of_reply (value v encoding) = 200
status_of_reply (slots list) = 200
status_of_reply (failure e) = (into_response e).status
status_of_reply (report r) = status_of r
status_of_reply healthy = 200
status_of_reply body_too_large = 413
status_of_reply not_found = 404
status_of_reply method_not_allowed = 405

-- The note of what a body parses to.
abbrev pub parsed_note :
    {A : Type 0} → (A → AuditFields → AuditFields) → Result A ParseError → AuditFields → AuditFields
parsed_note note (ok a) fields = note a fields
parsed_note note (err e) fields = fields

abbrev pub note_list : Text → List RedisCommand → AuditFields → AuditFields
note_list label commands = note_command (some label) (length commands)

module _ (f : Float) (sha256 : Text → Text) (json : Json) (limits : Limits) (cfg : Settings)
    (authenticate : Authenticator) (backend : Backend) (readiness : List PoolReadiness) where
  open f use {F}

  abbrev pub noted_body : Api → Text → AuditFields → AuditFields
  noted_body command body =
      parsed_note (λ c. note_command (some c.name) 1)
        (parse_command f sha256 json limits cfg authenticate backend readiness body)
  noted_body pipeline body =
      parsed_note (note_list (text "PIPELINE"))
        (parse_pipeline f sha256 json limits cfg authenticate backend readiness body)
  noted_body multi_exec body =
      parsed_note (note_list (text "MULTI-EXEC"))
        (parse_pipeline f sha256 json limits cfg authenticate backend readiness body)

  -- The notes of a handler: the identity first, and the command once the body is parsed.
  unfoldable pub noted : Api → Request → Result Identity AppError → AuditFields
  unfolding note_identity note_command read_body
  noted endpoint q (err e) = no_fields
  noted endpoint q (ok i) = elim (read_body q.body) [
    | ok body ↦ noted_body endpoint body (note_identity i no_fields)
    | err e ↦ note_identity i no_fields
  ]

  -- The notes of a request, of which only those that reach a handler have any.
  unfoldable pub notes : Place → Request → Result Identity AppError → AuditFields
  unfolding noted
  notes (api endpoint) q extracted =
      if is_over limits.max_body_bytes q.content_length
      then no_fields
      else if is_post q.method
      then noted endpoint q extracted
      else no_fields
  notes other q extracted = no_fields

  -- A request that is admitted, served and recorded. One whose client leaves before the response is
  -- there is not recorded; such requests are in InFlight.
  unfoldable pub observe :
      Request → (now now' latency_ms : ℕ) → Server F × Recorded → Server F × Recorded
  unfolding serve place_of notes status_of_reply record_request endpoint_label
  observe q now now' latency_ms (s, r) =
      let (left, reply) =
        serve f sha256 json limits cfg authenticate backend readiness q now now' s in
      let extracted = (extract f sha256 json limits cfg authenticate backend readiness q now s).1 in
      (
        left,
        record_request (endpoint_label q.path) (notes (place_of q.path) q extracted)
            (status_of_reply reply) latency_ms r,
      )
