-- ===== src/Http/Served.antt =====
-- src/http/mod.rs: what a request can bring about, from the router on.
use srh_rs.Base.{
  ℕ, ◌≤◌, ◌≡◌, refl, sym, ap, ◌∙◌, subst, inl, inr, ◌⊎◌, true, false, List, [], ◌∷◌, ◌++◌, Option,
  none, some, Text, Result, ok, err, >>=-eq-ok, map_err, map_err-eq-ok, ok_or, length, map, max,
  All, arith, Bool-cases, Result-cases,
}
use srh_rs.Identity.{Identity}
use srh_rs.Resp.{RedisCommand, PoolReadiness}
use srh_rs.RateLimit.Floats.{Float}
use srh_rs.RateLimit.{probe, access_at}
use srh_rs.Acl.{check}
use srh_rs.Compat.{normalize}
use srh_rs.Failure.{AppError, unauthorized}
use srh_rs.Auth.{Authenticator}
use srh_rs.Auth.Bearer.{from_request_parts, probed, identify, bearer_of, map_auth_error}
use srh_rs.Parse.Document.{Json}
use srh_rs.Parse.Bounds.{pipeline_bounded}
use srh_rs.Http.Effect.{ParseError, Server, Handler, ◌>>=◌, Settings, Backend}
use srh_rs.Http.Permitted.{pipeline-Sends, transaction-Sends}
use srh_rs.Http.Sends.{>>=-cases, Sends, permitted, is_ok, execute-Sends}
use srh_rs.Http.Serve.{
  post, Place, nowhere, routed, Request, Limits, Reply, failure, reply, Api, command, pipeline,
  multi_exec, api, health, ready, nowhere, place_of, is_post, is_get, is_over, extract, call, serve,
  parse_command, parse_pipeline, ping,
}

-- The header's credential, and whose it is.
pub record Authentic (authenticate : Authenticator) (header : Option Text) (i : Identity)
    : Type 0 where
  pub bearer : Text
  pub presented : bearer_of header ≡ some bearer
  pub known : authenticate bearer ≡ ok (some i)

ok_or-eq-ok : {A E : Type 0} (o : Option A) (e : E) (a : A) → ok_or o e ≡ ok a → o ≡ some a
ok_or-eq-ok none e a h = absurd (ground arith)
ok_or-eq-ok (some b) e a h = ground arith

identify-Authentic :
    (authenticate : Authenticator) (header : Option Text) (i : Identity)
    → identify authenticate header ≡ ok i
    → Authentic authenticate header i
unfolding identify
identify-Authentic authenticate header i h =
    let (bearer, presented, h1) = >>=-eq-ok (ok_or (bearer_of header) unauthorized) _ h in
    let (found, asked, known) = >>=-eq-ok (map_err map_auth_error (authenticate bearer)) _ h1 in
    let is : found ≡ some i = ok_or-eq-ok found unauthorized i known in
    record {
      bearer = bearer;
      presented = ok_or-eq-ok (bearer_of header) unauthorized bearer presented;
      known = map_err-eq-ok map_auth_error (authenticate bearer) found asked ∙ ap (λ o. ok o) is;
    }

module _ (f : Float) where
  open f use {F}

  -- The extractor sends nothing, and the identity that it gives is the credential's.
  pub extract-Authentic :
      (authenticate : Authenticator) (header : Option Text) (now : ℕ) (s : Server F)
      → ((from_request_parts f authenticate header now s).0.sent ≡ s.sent)
        × ((i : Identity)
            → (from_request_parts f authenticate header now s).1 ≡ ok i
            → Authentic authenticate header i)
  unfolding from_request_parts probed
  extract-Authentic authenticate header now s = elim (Result-cases (identify authenticate header)) [
    | inl (i, is) ↦
        rw (is, from_request_parts)
          (elim (Result-cases (access_at f s.limiter i.bucket_key probe now).1) [
            | inl (u, free) ↦
                rw (free, probed) (refl, λ i' h. identify-Authentic authenticate header i' (is ∙ h))
            | inr (e, debt) ↦ rw (debt, probed) (refl, λ i' h. absurd (ground arith))
          ])
    | inr (e, is) ↦ rw (is, from_request_parts) (refl, λ i h. absurd (ground arith))
  ]

-- Of permitted commands the policy permits all, and there are no more than of the commands.
permitted-All :
    (sha256 : Text → Text) (i : Identity) (cs : List RedisCommand)
    → All (λ c. check sha256 i c ≡ ok tt) (permitted sha256 i cs)
      × (length (permitted sha256 i cs) ≤ length cs)
unfolding permitted is_ok
permitted-All sha256 i [] = (tt, omega arith)
permitted-All sha256 i (c ∷ cs) =
    let (every, fewer) = permitted-All sha256 i cs in
    elim (Result-cases (check sha256 i c)) [
      | inl (u, fine) ↦ rw (fine, permitted) ((fine, every), ground arith)
      | inr (e, bad) ↦ rw (bad, permitted) (every, ground arith)
    ]

-- What one request has sent: nothing, or one batch, of the normal forms of commands that the policy
-- permits to the credential's identity, no more of them than the limit.
pub data Sent (F : Type 0) (sha256 : Text → Text) (limits : Limits) (authenticate : Authenticator)
    (header : Option Text) (s t : Server F) : Type 0 where
  nothing : t.sent ≡ s.sent → Sent F sha256 limits authenticate header s t
  batch :
      (i : Identity) (cs : List RedisCommand)
      → Authentic authenticate header i
      → All (λ c. check sha256 i c ≡ ok tt) cs
      → length cs ≤ max 1 limits.max_pipeline_commands
      → Sends s (map normalize cs) t
      → Sent F sha256 limits authenticate header s t

pub reply-state :
    {F A : Type 0} (shape : A → Reply) (r : Server F × Result A AppError) → (reply shape r).0 ≡ r.0
reply-state shape (s, ok a) = refl
reply-state shape (s, err e) = refl

module _ (f : Float) (sha256 : Text → Text) (json : Json) (limits : Limits) (cfg : Settings)
    (authenticate : Authenticator) (backend : Backend) (readiness : List PoolReadiness) where
  open f use {F}

  abbrev SentBy : Request → Server F → Server F → Type 0
  SentBy q = Sent F sha256 limits authenticate q.authorization

  abbrev extracted : Request → ℕ → Handler F Identity
  extracted = extract f sha256 json limits cfg authenticate backend readiness

  abbrev list_of : Text → Result (List RedisCommand) ParseError
  list_of = parse_pipeline f sha256 json limits cfg authenticate backend readiness

  Sent_from : (q : Request) (s t u : Server F) → t.sent ≡ s.sent → SentBy q t u → SentBy q s u
  Sent_from q s t u same (nothing e) = nothing (e ∙ same)
  Sent_from q s t u same (batch i cs whose fine few sends) =
      batch i cs whose fine few (sends ∙ ap (λ x. x ++ (map normalize cs ∷ [])) same)

  -- A handler behind the extractor.
  behind-Sent :
      {A : Type 0} (q : Request) (now : ℕ) (shape : A → Reply) (k : Identity → Handler F A)
      (s : Server F)
      → ((i : Identity) (t : Server F)
          → Authentic authenticate q.authorization i
          → SentBy q t (k i t).0)
      → SentBy q s (reply shape ((extracted q now >>= k) s)).0
  behind-Sent q now shape k s next =
      let (kept, whose) = extract-Authentic f authenticate q.authorization now s in
      subst (SentBy q s) (sym (reply-state shape ((extracted q now >>= k) s))) (
        >>=-cases (λ r. SentBy q s r.0) (extracted q now) k s (λ e h. nothing kept)
          λ i h.
            let t : Server F = (extracted q now s).0 in
            Sent_from q s t (k i t).0 kept (next i t (whose i h)))

  pub call-Sent :
      (endpoint : Api) (q : Request) (now now' : ℕ) (s : Server F)
      → SentBy q s
          (call f sha256 json limits cfg authenticate backend readiness endpoint q now now' s).0
  unfolding call
  call-Sent command q now now' s = behind-Sent q now _ _ s λ i t whose.
      elim (execute-Sends f sha256 cfg backend
        (parse_command f sha256 json limits cfg authenticate backend readiness) i q.encoding q.body
        now' t) [
          | inl none_sent ↦ nothing none_sent
          | inr (body, c, read, parses, fine, sends) ↦
              batch i (c ∷ []) whose (fine, tt) (omega arith) sends
        ]
  call-Sent pipeline q now now' s = behind-Sent q now _ _ s λ i t whose.
      elim (pipeline-Sends f sha256 cfg backend list_of i q.encoding q.body now' t) [
        | inl none_sent ↦ nothing none_sent
        | inr (body, cs, read, parses, sends) ↦
            let (fine, fewer) = permitted-All sha256 i cs in
            let (few, _) =
              pipeline_bounded json body limits.max_pipeline_commands limits.max_request_elements cs
                parses in
            batch i (permitted sha256 i cs) whose fine (omega arith) sends
      ]
  call-Sent multi_exec q now now' s = behind-Sent q now _ _ s λ i t whose.
      elim (transaction-Sends f sha256 cfg backend list_of i q.encoding q.body now' t) [
        | inl none_sent ↦ nothing none_sent
        | inr (body, cs, read, parses, fine, sends) ↦
            let (few, _) =
              pipeline_bounded json body limits.max_pipeline_commands limits.max_request_elements cs
                parses in
            batch i cs whose fine (omega arith) sends
      ]

  -- One `PING` for each pool that has been built, for a loopback peer.
  abbrev Probed : Place → Request → Server F → Server F → Type 0
  Probed place q s t =
      (place ≡ ready)
      × (is_get q.method ≡ true)
      × (q.loopback ≡ true)
      × (t.sent ≡ s.sent ++ map (λ p. ping ∷ []) readiness)

  routed-Sent :
      (place : Place) (q : Request) (now now' : ℕ) (s : Server F)
      → SentBy q s
          (routed f sha256 json limits cfg authenticate backend readiness place q now now' s).0
        ⊎ Probed place q s
            (routed f sha256 json limits cfg authenticate backend readiness place q now now' s).0
  unfolding routed
  routed-Sent (api endpoint) q now now' s =
      elim (Bool-cases (is_over limits.max_body_bytes q.content_length)) [
        | inl over ↦ rw (over, routed) (inl (nothing refl))
        | inr fits ↦ elim (Bool-cases (is_post q.method)) [
          | inl posts ↦ rw (fits, posts, routed) (inl (call-Sent endpoint q now now' s))
          | inr other ↦ rw (fits, other, routed) (inl (nothing refl))
        ]
      ]
  routed-Sent health q now now' s = elim (Bool-cases (is_get q.method)) [
    | inl gets ↦ rw (gets, routed) (inl (nothing refl))
    | inr other ↦ rw (other, routed) (inl (nothing refl))
  ]
  routed-Sent ready q now now' s = elim (Bool-cases (is_get q.method)) [
    | inr other ↦ rw (other, routed) (inl (nothing refl))
    | inl gets ↦ elim (Bool-cases q.loopback) [
      | inl near ↦ rw (gets, near, routed) (inr (refl, refl, refl, refl))
      | inr far ↦ rw (gets, far, routed) (inl (nothing refl))
    ]
  ]
  routed-Sent nowhere q now now' s = inl (nothing refl)

  -- Redis has received nothing of a request that was served, or one batch: the normal forms of
  -- commands that the policy permits to the identity of the request's credential, and no more of
  -- them than the limit of a pipeline, or one. The one exception is a readiness check, a `GET` or `HEAD` of its
  -- path by a loopback peer, which sends one `PING` for each pool that has been built.
  pub serve-Sent :
      (q : Request) (now now' : ℕ) (s : Server F)
      → let t = (serve f sha256 json limits cfg authenticate backend readiness q now now' s).0 in
        Sent F sha256 limits authenticate q.authorization s t
        ⊎ ((place_of q.path ≡ ready)
            × (is_get q.method ≡ true)
            × (q.loopback ≡ true)
            × (t.sent ≡ s.sent ++ map (λ p. ping ∷ []) readiness))
  unfolding serve
  serve-Sent q now now' s = routed-Sent (place_of q.path) q now now' s

  -- A request to an endpoint of the API, by `POST` and within the body's limit, whose credential is
  -- missing, unknown or refused, changes nothing on the server and gets that error, whatever its
  -- body is: no tokens are charged, no bucket is made, no command is sent.
  pub serve_unauthenticated :
      (q : Request) (endpoint : Api) (e : AppError) (now now' : ℕ) (s : Server F)
      → place_of q.path ≡ api endpoint
      → is_over limits.max_body_bytes q.content_length ≡ false
      → q.method ≡ post
      → identify authenticate q.authorization ≡ err e
      → serve f sha256 json limits cfg authenticate backend readiness q now now' s ≡ (s, failure e)
  unfolding serve routed call from_request_parts
  serve_unauthenticated q command e now now' s place fits posts bad =
      rw (place, serve) (rw (fits, posts, bad, routed, call, from_request_parts) refl)
  serve_unauthenticated q pipeline e now now' s place fits posts bad =
      rw (place, serve) (rw (fits, posts, bad, routed, call, from_request_parts) refl)
  serve_unauthenticated q multi_exec e now now' s place fits posts bad =
      rw (place, serve) (rw (fits, posts, bad, routed, call, from_request_parts) refl)
