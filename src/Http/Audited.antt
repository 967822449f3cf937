-- ===== src/Http/Audited.antt =====
-- src/http: what a request to the API sends, and its line in the log.
use srh_rs.Base.{
  ℕ, ◌≡◌, refl, sym, ap, ◌∙◌, ◌⊎◌, inl, inr, List, ◌∷◌, some, Text, ok, map, All, Bool-cases,
  Result-cases,
}
use srh_rs.Identity.{Identity}
use srh_rs.Resp.{RedisCommand, PoolReadiness}
use srh_rs.RateLimit.Floats.{Float}
use srh_rs.Acl.{check}
use srh_rs.Compat.{normalize}
use srh_rs.Failure.{endpoint_label}
use srh_rs.Auth.{Authenticator}
use srh_rs.Parse.Document.{Json}
use srh_rs.Http.Effect.{Server, Settings, Backend, Handler}
use srh_rs.Http.Sends.{Sends}
use srh_rs.Http.Serve.{
  Request, Limits, Api, api, place_of, is_post, is_over, extract, call, routed, serve,
}
use srh_rs.Http.Served.{Authentic, extract-Authentic, nothing, batch, call-Sent}
use srh_rs.Http.Observe.{AuditFields, Line, Recorded, record_request, line_of}
use srh_rs.Http.Audit.{observe, notes, noted, status_of_reply}
use srh_rs.Http.Noted.{
  credential_unique, api-is_probe, record_request-logs, line_of-identity, noted-identity,
  call-refused,
}

module _ (f : Float) (sha256 : Text → Text) (json : Json) (limits : Limits) (cfg : Settings)
    (authenticate : Authenticator) (backend : Backend) (readiness : List PoolReadiness) where
  open f use {F}

  abbrev extracted : Request → ℕ → Handler F Identity
  extracted = extract f sha256 json limits cfg authenticate backend readiness

  -- What was sent and logged of a request: one batch of commands that the policy permits to the
  -- credential's identity, and a line with that identity's subject and pool.
  pub record Told (q : Request) (s t : Server F) (r r' : Recorded) : Type 0 where
    pub identity : Identity
    pub whose : Authentic authenticate q.authorization identity
    pub commands : List RedisCommand
    pub fine : All (λ c. check sha256 identity c ≡ ok tt) commands
    pub sends : Sends s (map normalize commands) t
    pub line : Line
    pub logged : r'.lines ≡ line ∷ r.lines
    pub names : (line.subject ≡ identity.subject) × (line.pool ≡ identity.pool)

  call-Told :
      (endpoint : Api) (q : Request) (now now' status latency_ms : ℕ) (s : Server F) (r : Recorded)
      → place_of q.path ≡ api endpoint
      → ((call f sha256 json limits cfg authenticate backend readiness endpoint q now now' s).0.sent
          ≡ s.sent)
        ⊎ Told q s
            (call f sha256 json limits cfg authenticate backend readiness endpoint q now now' s).0
            r
            (record_request
              (endpoint_label q.path)
              (noted f sha256 json limits cfg authenticate backend readiness endpoint q
                (extracted q now s).1)
              status
              latency_ms
              r)
  call-Told endpoint q now now' status latency_ms s r place =
      elim (Result-cases (extracted q now s).1) [
        | inr (e, refused) ↦ inl (
            call-refused f sha256 json limits cfg authenticate backend readiness endpoint q now now'
              s e refused)
        | inl (i, is) ↦
            elim (call-Sent f sha256 json limits cfg authenticate backend readiness endpoint q now
              now' s) [
                | nothing kept ↦ inl kept
                | batch j cs whose fine few sends ↦
                    let same : j ≡ i =
                      credential_unique authenticate q.authorization j i whose
                        ((extract-Authentic f authenticate q.authorization now s).1 i is) in
                    let fields : AuditFields =
                      noted f sha256 json limits cfg authenticate backend readiness endpoint q
                        (extracted q now s).1 in
                    let named : fields.identity ≡ some j =
                      ap
                        (λ x.
                          (noted f sha256 json limits cfg authenticate backend readiness endpoint q
                            x).identity)
                        is
                      ∙ (noted-identity f sha256 json limits cfg authenticate backend readiness
                            endpoint q i
                          ∙ ap (λ x. some x) (sym same)) in
                    inr (record {
                      identity = j;
                      whose = whose;
                      commands = cs;
                      fine = fine;
                      sends = sends;
                      line = line_of (endpoint_label q.path) fields status latency_ms;
                      logged =
                          record_request-logs (endpoint_label q.path) fields status latency_ms r
                            (api-is_probe q.path endpoint place);
                      names =
                          line_of-identity (endpoint_label q.path) fields status latency_ms j named;
                    })
              ]
      ]

  -- A request to the API that is served and answered while its client stays has sent nothing to
  -- Redis, or it has sent one batch, of the normal forms of commands that the policy permits to the
  -- identity of its credential, and the log then has a new line with that identity's subject and
  -- pool.
  pub observe-Told :
      (q : Request) (endpoint : Api) (now now' latency_ms : ℕ) (s : Server F) (r : Recorded)
      → place_of q.path ≡ api endpoint
      → let (t, r') =
          observe f sha256 json limits cfg authenticate backend readiness q now now' latency_ms
            (s, r) in
        (t.sent ≡ s.sent) ⊎ Told q s t r r'
  unfolding observe serve routed notes
  observe-Told q endpoint now now' latency_ms s r place =
      elim (Bool-cases (is_over limits.max_body_bytes q.content_length)) [
        | inl over ↦ inl (rw (place, over, routed) refl)
        | inr fits ↦ elim (Bool-cases (is_post q.method)) [
          | inr other ↦ inl (rw (place, fits, other, routed) refl)
          | inl posts ↦
              rw (place, fits, posts, routed, notes)
                (call-Told endpoint q now now'
                  (status_of_reply
                    (call f sha256 json limits cfg authenticate backend readiness endpoint q now
                      now' s).1)
                  latency_ms s r place)
        ]
      ]
