-- ===== src/Start/Started.antt =====
-- src/main.rs: whom a process that starts lets in, and what maintenance leaves.
use srh_rs.Base.{
  ℕ, ◌<◌, ◌≡◌, refl, ap, ◌∙◌, ◌⊎◌, ◌==◌, map_err, >>=-eq-ok, sym, false, List, [], ◌∷◌, Option,
  none, some, Text, text_eq, text_eq_iff, Map, lookup, Result, ok, err, is_some, arith,
  Option-cases, Bool-cases, inl, inr,
}
use srh_rs.Identity.{Identity, AuthError, rejected}
use srh_rs.Resp.{PoolReadiness}
use srh_rs.RateLimit.Floats.{Float}
use srh_rs.Failure.{unauthorized}
use srh_rs.Auth.{
  StaticTokenConfig, authenticate_chain, authenticate_static, identities, identity_of,
}
use srh_rs.Auth.Bearer.{identify, bearer_of, map_auth_error}
use srh_rs.Auth.Introspection.{IntrospectionCache, CacheEntry}
use srh_rs.Auth.Expiry.{sweep-fresh}
use srh_rs.Config.{Config, JwtConfig}
use srh_rs.Parse.Document.{Json}
use srh_rs.Pool.Manager.{lookup-evict_idle, kept}
use srh_rs.Http.Effect.{Server, Settings, Backend}
use srh_rs.Http.Serve.{Request, Limits, Api, api, place_of, post, is_over, failure, serve}
use srh_rs.Http.Served.{serve_unauthenticated}
use srh_rs.Base.{text}
use srh_rs.Auth.{Authenticator}
use srh_rs.Auth.Jwt.{dots, authenticate}
use srh_rs.Start.{
  Timed, jwt_link, introspector_of, Ports, authenticators, start, Process, Kept, swept, maintain,
}

-- What static authentication alone says, by the token of the bearer's digest.
abbrev pub verdict : Text → Option StaticTokenConfig → Result (Option Identity) AuthError
verdict digest none = err rejected
verdict digest (some token) = ok (some (identity_of digest token))

abbrev shown : Text → Option StaticTokenConfig → Option Identity
shown digest none = none
shown digest (some token) = some (identity_of digest token)

lookup-identities :
    (digest : Text) (tokens : Map StaticTokenConfig)
    → lookup digest (identities tokens) ≡ shown digest (lookup digest tokens)
unfolding lookup identities
lookup-identities digest [] = refl
lookup-identities digest ((d, token) ∷ tokens) = elim (Bool-cases (text_eq d digest)) [
  | inl t ↦ rw (t, lookup) (ap (λ x. some (identity_of x token)) ((text_eq_iff d digest).0 t))
  | inr t ↦ rw (t, lookup) (lookup-identities digest tokens)
]

chain_of_passed :
    (link : Authenticator) (links : List Authenticator) (bearer : Text)
    → link bearer ≡ ok none
    → authenticate_chain (link ∷ links) bearer ≡ authenticate_chain links bearer
unfolding authenticate_chain
chain_of_passed link links bearer passed = rw (passed, authenticate_chain) refl

chain_of_static :
    (sha256 : Text → Text) (tokens : Map StaticTokenConfig) (bearer : Text)
    → authenticate_chain (authenticate_static sha256 (identities tokens) ∷ []) bearer
      ≡ verdict (sha256 bearer) (lookup (sha256 bearer) tokens)
unfolding authenticate_chain authenticate_static
chain_of_static sha256 tokens bearer =
    rw (lookup-identities (sha256 bearer) tokens, authenticate_chain, authenticate_static)
      (elim (Option-cases (lookup (sha256 bearer) tokens)) [
        | inl unknown ↦ rw unknown refl
        | inr (token, is) ↦ rw is refl
      ])

ok_injective : {A E : Type 0} (a b : A) → ◌≡◌ {A = Result A E} (ok a) (ok b) → a ≡ b
ok_injective a b h = ground arith

module _ (f : Float) (sha256 : Text → Text) (show_nat : ℕ → Text) (ports : Ports) where
  open f use {F}

  -- The link for JWTs passes on what has not two dots.
  jwt_link-passes :
      (config : Config) (jwt : JwtConfig) (link : Timed) (cache : IntrospectionCache) (now : ℕ)
      (bearer : Text)
      → jwt_link f sha256 show_nat ports config jwt ≡ ok link
      → dots bearer == 2 ≡ false
      → link cache now bearer ≡ ok none
  unfolding jwt_link
  jwt_link-passes config jwt link cache now bearer h other =
      let (key_for, opened, h1) =
        >>=-eq-ok
          (map_err (λ e. text "failed to initialize JWKS client")
            (ports.open_jwks jwt.issuer jwt.jwks_refresh_secs))
          _ h in
      let (introspector, made, h2) = >>=-eq-ok (introspector_of f sha256 show_nat ports jwt) _ h1 in
      ap (λ l. l cache now bearer) (sym (ok_injective _ link h2)) ∙ rw (other, authenticate) refl

  authenticators-verdict :
      (config : Config) (jwt : Option JwtConfig) (made : Timed × Option IntrospectionCache)
      (cache : IntrospectionCache) (now : ℕ) (bearer : Text)
      → authenticators f sha256 show_nat ports config jwt ≡ ok made
      → (jwt ≡ none) ⊎ (dots bearer == 2 ≡ false)
      → made.0 cache now bearer
        ≡ verdict (sha256 bearer) (lookup (sha256 bearer) config.static_tokens)
  unfolding authenticators
  authenticators-verdict config none made cache now bearer h alone =
      ap (λ m. m.0 cache now bearer) (sym (ok_injective _ made h))
      ∙ chain_of_static sha256 config.static_tokens bearer
  authenticators-verdict config (some jwt) made cache now bearer h (inl plain) =
      absurd (ground arith)
  authenticators-verdict config (some jwt) made cache now bearer h (inr other) =
      let (link, linked, h1) = >>=-eq-ok (jwt_link f sha256 show_nat ports config jwt) _ h in
      let passed = jwt_link-passes config jwt link cache now bearer linked other in
      ap (λ m. m.0 cache now bearer) (sym (ok_injective _ made h1))
      ∙ (chain_of_passed (link cache now)
            (authenticate_static sha256 (identities config.static_tokens) ∷ []) bearer passed
          ∙ chain_of_static sha256 config.static_tokens bearer)

  -- A process that starts lets in exactly the configured tokens of those that are no JWTs: a bearer
  -- that has not two dots, or any if JWTs are not configured, gets the identity of its digest's
  -- token, and is rejected if there is none.
  pub start-verdict :
      (config : Config) (p : Process F) (cache : IntrospectionCache) (now : ℕ) (bearer : Text)
      → start f sha256 show_nat ports config ≡ ok p
      → (config.jwt ≡ none) ⊎ (dots bearer == 2 ≡ false)
      → p.authenticator cache now bearer
        ≡ verdict (sha256 bearer) (lookup (sha256 bearer) config.static_tokens)
  unfolding start
  start-verdict config p cache now bearer h alone = elim (Bool-cases (is_some config.server.tls)) [
    | inl tls ↦ absurd (ground arith)
    | inr bare ↦
        let (made, are, h1) =
          >>=-eq-ok (authenticators f sha256 show_nat ports config config.jwt) _
            (rw (bare, start) at h) in
        ap (λ q. q.authenticator cache now bearer) (sym (ok_injective _ p h1))
        ∙ authenticators-verdict config config.jwt made cache now bearer are alone
  ]

  -- Whoever asks a process that starts, by `POST` and within the body's limit, with a bearer whose
  -- digest is not configured, is unauthorized at every endpoint of the API and leaves nothing behind
  -- on the server, if JWTs are not configured or the bearer has not two dots.
  pub unknown_refused :
      (config : Config) (p : Process F) (json : Json) (limits : Limits) (cfg : Settings)
      (backend : Backend) (readiness : List PoolReadiness) (q : Request) (endpoint : Api)
      (cache : IntrospectionCache) (bearer : Text) (now now' : ℕ) (s : Server F)
      → start f sha256 show_nat ports config ≡ ok p
      → (config.jwt ≡ none) ⊎ (dots bearer == 2 ≡ false)
      → bearer_of q.authorization ≡ some bearer
      → lookup (sha256 bearer) config.static_tokens ≡ none
      → place_of q.path ≡ api endpoint
      → is_over limits.max_body_bytes q.content_length ≡ false
      → q.method ≡ post
      → serve f sha256 json limits cfg (p.authenticator cache now) backend readiness q now now' s
        ≡ (s, failure unauthorized)
  unfolding identify map_auth_error
  unknown_refused config p json limits cfg backend readiness q endpoint cache bearer now now' s h
        alone presented unknown place fits posts =
      let said : p.authenticator cache now bearer ≡ err rejected =
        start-verdict config p cache now bearer h alone ∙ ap (verdict (sha256 bearer)) unknown in
      serve_unauthenticated f sha256 json limits cfg (p.authenticator cache now) backend readiness q
        endpoint unauthorized now now' s place fits posts (rw (presented, identify) (rw said refl))

-- Of an optional cache, the entry of a digest.
abbrev pub cached : Text → Option IntrospectionCache → Option CacheEntry
cached digest none = none
cached digest (some cache) = lookup digest cache.entries

swept-fresh :
    (o : Option IntrospectionCache) (now : ℕ) (digest : Text) (e : CacheEntry)
    → cached digest (swept o now) ≡ some e
    → (now < e.expires_at) × (cached digest o ≡ some e)
unfolding swept
swept-fresh none now digest e h = absurd (ground arith)
swept-fresh (some cache) now digest e h = sweep-fresh cache now digest e h

-- After a pass of maintenance a pool is there exactly if it was there and not idle, as it was, and
-- every introspection result that is left was there and has time to live.
pub maintain-keeps :
    (f : Float) (k : Kept (f.F)) (now unix_secs : ℕ)
    → ((name : Text)
        → lookup name (maintain f k now unix_secs).pools ≡ kept unix_secs (lookup name k.pools))
      × ((digest : Text) (e : CacheEntry)
          → cached digest (maintain f k now unix_secs).introspected ≡ some e
          → (now < e.expires_at) × (cached digest k.introspected ≡ some e))
unfolding maintain
maintain-keeps f k now unix_secs = (
  λ name. lookup-evict_idle unix_secs k.pools name,
  λ digest e h. swept-fresh k.introspected now digest e h,
)
