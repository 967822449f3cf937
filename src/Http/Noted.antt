-- ===== src/Http/Noted.antt =====
-- src/http: what a request notes for the log, and what one does that is refused.
use srh_rs.Base.{
  ℕ, ◌≡◌, refl, ap, ◌∙◌, inl, inr, false, List, ◌∷◌, Option, some, Text, text_eq, Result, ok, err,
  arith, Result-cases,
}
use srh_rs.Identity.{Identity}
use srh_rs.Resp.{PoolReadiness}
use srh_rs.RateLimit.Floats.{Float}
use srh_rs.Failure.{AppError, endpoint_label, is_probe}
use srh_rs.Auth.{Authenticator}
use srh_rs.Parse.Document.{Json}
use srh_rs.Http.Effect.{Server, Settings, Backend, ◌>>=◌, Handler, read_body, ParseError}
use srh_rs.Http.Sends.{>>=-cases}
use srh_rs.Http.Serve.{
  Request, Limits, Api, command, pipeline, multi_exec, api, place_of, extract, call, Reply, reply,
  parse_command, parse_pipeline,
}
use srh_rs.Http.Served.{Authentic, extract-Authentic, reply-state}
use srh_rs.Http.Observe.{
  AuditFields, Recorded, record_request, line_of, note_identity, note_command, no_fields,
}
use srh_rs.Http.Audit.{noted, noted_body, parsed_note}

-- A credential is one identity's.
pub credential_unique :
    (authenticate : Authenticator) (header : Option Text) (i j : Identity)
    → Authentic authenticate header i
    → Authentic authenticate header j
    → i ≡ j
credential_unique authenticate header i j a b =
    let same : a.bearer ≡ b.bearer = ground (arith, a.presented, b.presented) in
    ground (arith, a.known, b.known, ap authenticate same)

-- A path of the API is no probe's.
pub api-is_probe :
    (path : Text) (endpoint : Api)
    → place_of path ≡ api endpoint
    → is_probe (endpoint_label path) ≡ false
unfolding place_of endpoint_label is_probe text_eq
api-is_probe path endpoint h = ground arith

pub record_request-logs :
    (endpoint : Text) (fields : AuditFields) (status latency_ms : ℕ) (r : Recorded)
    → is_probe endpoint ≡ false
    → (record_request endpoint fields status latency_ms r).lines
      ≡ line_of endpoint fields status latency_ms ∷ r.lines
unfolding record_request
record_request-logs endpoint fields status latency_ms r h = rw (h, record_request) refl

pub line_of-identity :
    (endpoint : Text) (fields : AuditFields) (status latency_ms : ℕ) (i : Identity)
    → fields.identity ≡ some i
    → ((line_of endpoint fields status latency_ms).subject ≡ i.subject)
      × ((line_of endpoint fields status latency_ms).pool ≡ i.pool)
unfolding line_of
line_of-identity endpoint fields status latency_ms i h = rw (h, line_of) (refl, refl)

parsed_note-identity :
    {A : Type 0} (note : A → AuditFields → AuditFields) (r : Result A ParseError)
    (fields : AuditFields)
    → ((a : A) → (note a fields).identity ≡ fields.identity)
    → (parsed_note note r fields).identity ≡ fields.identity
parsed_note-identity note (ok a) fields keeps = keeps a
parsed_note-identity note (err e) fields keeps = refl

module _ (f : Float) (sha256 : Text → Text) (json : Json) (limits : Limits) (cfg : Settings)
    (authenticate : Authenticator) (backend : Backend) (readiness : List PoolReadiness) where
  open f use {F}

  pub noted-identity :
      (endpoint : Api) (q : Request) (i : Identity)
      → (noted f sha256 json limits cfg authenticate backend readiness endpoint q (ok i)).identity
        ≡ some i
  unfolding noted note_identity note_command
  noted-identity endpoint q i = elim (Result-cases (read_body q.body)) [
    | inr (e, cut) ↦ rw (cut, noted) refl
    | inl (body, whole) ↦ rw (whole, noted) (body_kept endpoint body)
  ]
    where
      body_kept :
          (endpoint : Api) (body : Text)
          → (noted_body f sha256 json limits cfg authenticate backend readiness endpoint body
              (note_identity i no_fields)).identity
            ≡ some i
      body_kept command body =
          parsed_note-identity _
            (parse_command f sha256 json limits cfg authenticate backend readiness body)
            (note_identity i no_fields) (λ c. refl)
      body_kept pipeline body =
          parsed_note-identity _
            (parse_pipeline f sha256 json limits cfg authenticate backend readiness body)
            (note_identity i no_fields) (λ c. refl)
      body_kept multi_exec body =
          parsed_note-identity _
            (parse_pipeline f sha256 json limits cfg authenticate backend readiness body)
            (note_identity i no_fields) (λ c. refl)

  abbrev extracted : Request → ℕ → Handler F Identity
  extracted = extract f sha256 json limits cfg authenticate backend readiness

  -- A request that the extractor refuses sends nothing.
  refused-keeps :
      {A : Type 0} (q : Request) (now : ℕ) (shape : A → Reply) (k : Identity → Handler F A)
      (s : Server F) (e : AppError)
      → (extracted q now s).1 ≡ err e
      → (reply shape ((extracted q now >>= k) s)).0.sent ≡ s.sent
  refused-keeps q now shape k s e refused =
      ap (λ t. t.sent) (reply-state shape ((extracted q now >>= k) s))
      ∙ >>=-cases (λ r. r.0.sent ≡ s.sent) (extracted q now) k s
          (λ e' h. (extract-Authentic f authenticate q.authorization now s).0)
          (λ i h. absurd (ground (arith, refused, h)))

  pub call-refused :
      (endpoint : Api) (q : Request) (now now' : ℕ) (s : Server F) (e : AppError)
      → (extracted q now s).1 ≡ err e
      → (call f sha256 json limits cfg authenticate backend readiness endpoint q now now' s).0.sent
        ≡ s.sent
  unfolding call
  call-refused command q now now' s e h = refused-keeps q now _ _ s e h
  call-refused pipeline q now now' s e h = refused-keeps q now _ _ s e h
  call-refused multi_exec q now now' s e h = refused-keeps q now _ _ s e h
