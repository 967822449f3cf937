-- ===== src/Http/Serve.antt =====
-- src/http/mod.rs: one request from the router to its response. axum's router and the body limit of
-- tower-http stand here as the code uses them; the deadline and the shedding of requests are in
-- InFlight.
use srh_rs.Base.{
  ℕ, true, false, Bool, List, [], ◌∷◌, ◌++◌, map, Option, none, some, Text, text, text_eq, Result,
  ok, err, ltb, if◌then◌else◌,
}
use srh_rs.Identity.{Identity}
use srh_rs.Resp.{RespValue, RedisCommand, PoolReadiness}
use srh_rs.RateLimit.Floats.{Float}
use srh_rs.Convert.{Encoding}
use srh_rs.Failure.{AppError}
use srh_rs.Auth.{Authenticator}
use srh_rs.Auth.Bearer.{from_request_parts}
use srh_rs.Parse
use srh_rs.Parse.Document.{Json}
use srh_rs.Http.Effect.{Server, Handler, ◌>>=◌, Settings, Backend, Read, Slot, ParseError}
use srh_rs.Http.Health.{Report, report_ready}
use srh_rs.Http.Command
use srh_rs.Http.Pipeline
use srh_rs.Http.MultiExec

pub data Method : Type 0 where
  get head post other_method : Method

-- Of a request: the header `Content-Length` as a number, if it has one, and whether its peer is on a
-- loopback address.
pub record Request : Type 0 where
  pub path : Text
  pub method : Method
  pub authorization : Option Text
  pub encoding : Option Text
  pub content_length : Option ℕ
  pub body : Read
  pub loopback : Bool

pub record Limits : Type 0 where
  pub max_body_bytes : ℕ
  pub max_pipeline_commands : ℕ
  pub max_request_elements : ℕ

pub data Api : Type 0 where
  command pipeline multi_exec : Api

pub data Place : Type 0 where
  api : Api → Place
  health ready nowhere : Place

-- The routes by their paths.
unfoldable pub place_of : Text → Place
unfolding text_eq
place_of path =
    if text_eq path (text "/")
    then api command
    else if text_eq path (text "/pipeline")
    then api pipeline
    else if text_eq path (text "/multi-exec")
    then api multi_exec
    else if text_eq path (text "/health")
    then health
    else if text_eq path (text "/ready")
    then ready
    else nowhere

abbrev pub is_post : Method → Bool
is_post post = true
is_post other = false

-- `get` answers `HEAD` too.
abbrev pub is_get : Method → Bool
is_get get = true
is_get head = true
is_get other = false

pub data Reply : Type 0 where
  value : RespValue → Encoding → Reply
  slots : List Slot → Reply
  failure : AppError → Reply
  report : Report → Reply
  healthy body_too_large not_found method_not_allowed : Reply

abbrev pub reply : {F A : Type 0} → (A → Reply) → Server F × Result A AppError → Server F × Reply
reply shape (s, ok a) = (s, shape a)
reply shape (s, err e) = (s, failure e)

-- What readiness sends to each pool that has been built, past the policy.
abbrev pub ping : RedisCommand
ping = record { name = text "PING"; args = [] }

abbrev pub pings : List PoolReadiness → List (List RedisCommand)
pings readiness = map (λ p. ping ∷ []) readiness

-- Only a loopback peer makes readiness probe the pools.
abbrev pub probed : {F : Type 0} → (loopback : Bool) → List PoolReadiness → Server F → Server F
probed true readiness s = record s { sent = s.sent ++ pings readiness }
probed false readiness s = s

-- `RequestBodyLimitLayer`, of a request that says its length.
abbrev pub is_over : ℕ → Option ℕ → Bool
is_over limit none = false
is_over limit (some length) = ltb limit length

module _ (f : Float) (sha256 : Text → Text) (json : Json) (limits : Limits) (cfg : Settings)
    (authenticate : Authenticator) (backend : Backend) (readiness : List PoolReadiness) where
  open f use {F}

  abbrev pub parse_command : Text → Result RedisCommand ParseError
  parse_command body = Parse.command json body limits.max_request_elements

  abbrev pub parse_pipeline : Text → Result (List RedisCommand) ParseError
  parse_pipeline body =
      Parse.pipeline json body limits.max_pipeline_commands limits.max_request_elements

  -- The identity of a request, by the extractor.
  abbrev pub extract : Request → ℕ → Handler F Identity
  extract q now = from_request_parts f authenticate q.authorization now

  abbrev pub of_value : RespValue × Encoding → Reply
  of_value v = value v.0 v.1

  -- The handlers behind the extractor, each with the clock as it reads then.
  unfoldable pub call : Api → Request → (now now' : ℕ) → Server F → Server F × Reply
  unfolding from_request_parts Command.execute Pipeline.execute MultiExec.execute
  call command q now now' s = reply of_value (
      (extract q now >>= λ i.
      Command.execute f sha256 parse_command cfg backend i q.encoding q.body now')
        s)
  call pipeline q now now' s = reply slots (
      (extract q now >>= λ i.
      Pipeline.execute f sha256 parse_pipeline cfg backend i q.encoding q.body now')
        s)
  call multi_exec q now now' s = reply slots (
      (extract q now >>= λ i.
      MultiExec.execute f sha256 parse_pipeline cfg backend i q.encoding q.body now')
        s)

  unfoldable pub routed : Place → Request → (now now' : ℕ) → Server F → Server F × Reply
  unfolding report_ready
  routed (api endpoint) q now now' s =
      if is_over limits.max_body_bytes q.content_length
      then (s, body_too_large)
      else if is_post q.method
      then call endpoint q now now' s
      else (s, method_not_allowed)
  routed health q now now' s = if is_get q.method then (s, healthy) else (s, method_not_allowed)
  routed ready q now now' s =
      if is_get q.method
      then (probed q.loopback readiness s, report (report_ready q.loopback readiness))
      else (s, method_not_allowed)
  routed nowhere q now now' s = (s, not_found)

  -- A request that is admitted.
  unfoldable pub serve : Request → (now now' : ℕ) → Server F → Server F × Reply
  unfolding place_of routed
  serve q = routed (place_of q.path) q
