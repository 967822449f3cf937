-- ===== src/Start.antt =====
-- src/main.rs: what the process is made of, and its maintenance. Clients of other services, sockets,
-- signals and the runtime are outside.
pub mod Started
mod Tests
use srh_rs.Base.{
  ℕ, ◌≡◌, refl, Bool, true, false, not, ◌&&◌, ◌||◌, ◌==◌, List, [], ◌∷◌, ◌++◌, Option, none, some,
  Text, text, Map, map, map_err, lookup, Result, ok, err, ◌>>=◌, is_some, head?, any, if◌then◌else◌,
}
use srh_rs.RateLimit.Floats.{Float}
use srh_rs.RateLimit.{RateLimiter, sweep_idle}
use srh_rs.RateLimit
use srh_rs.Auth.{Authenticator, authenticate_chain, authenticate_static, identities}
use srh_rs.Auth.Introspection.{IntrospectionCache}
use srh_rs.Auth.Introspection
use srh_rs.Identity.{CachedKey, JwksError, IntrospectError}
use srh_rs.Auth.Jwt
use srh_rs.Auth.Jwt.{Tokens}
use srh_rs.Outbound.Introspect
use srh_rs.Outbound.Introspect.{Web}
use srh_rs.Config
use srh_rs.Config.{PoolConfig}
use srh_rs.Config.Tokens.{or_else}
use srh_rs.Pool.Entry.{PoolEntry}
use srh_rs.Pool.Manager.{evict_idle, shutdown}

-- `bind.starts_with('[')`.
abbrev is_bracketed : Text → Bool
is_bracketed [] = false
is_bracketed (c ∷ t) = c == 91

-- `bind_address`, of a port as it is written.
unfoldable pub bind_address : Text → Text → Text
bind_address bind port =
    if any (λ c. c == 58) bind && not (is_bracketed bind)
    then text "[" ++ (bind ++ (text "]:" ++ port))
    else bind ++ (text ":" ++ port)

-- An authenticator as the cache of introspection results and the clock are.
abbrev pub Timed : Type 0
Timed = IntrospectionCache → ℕ → Authenticator

-- The parts of a process. The link for JWTs, and its cache, are made if they are configured.
pub record Process (F : Type 0) : Type 0 where
  pub authenticator : Timed
  pub limiter : RateLimiter F
  pub address : Text
  pub introspected : Option IntrospectionCache

-- The package for tokens, the web of introspection, and the port of signing keys for an issuer.
pub record Ports : Type 1 where
  pub tokens : Tokens
  pub web : Web
  pub open_jwks :
      (issuer : Text) (refresh_secs : ℕ) → Result (Text → Result CachedKey JwksError) Text

-- What `JwtAuth` reads of its configuration, and the scripts of each pool.
abbrev pub policy_of : Config.JwtConfig → Jwt.JwtConfig
policy_of jwt = record {
  issuer = jwt.issuer;
  audience = jwt.audience;
  role_prefix = jwt.role_prefix;
  client_id = jwt.client_id;
}

abbrev pub scripts_of : Config.Config → Map (List Text)
scripts_of config =
    map (λ (p : Text × PoolConfig). (p.0, or_else (lookup p.0 config.pool_scripts) [])) config.pools

module _ (f : Float) (sha256 : Text → Text) (show_nat : ℕ → Text) (ports : Ports) where
  open f use {F}

  unfoldable pub introspector_of :
      Config.JwtConfig → Result (Option (Text → Result Bool IntrospectError)) Text
  unfolding Introspect.new Introspect.is_active
  introspector_of jwt =
      let i = jwt.introspection in
      if i.enabled
      then (map_err (λ e. text "failed to initialize introspection client")
            (Introspect.new ports.web i.url i.client_id i.client_secret)
          >>= λ client. ok (some (Introspect.is_active ports.web client)))
      else ok none

  unfoldable pub jwt_link : Config.Config → Config.JwtConfig → Result Timed Text
  unfolding introspector_of Jwt.authenticate
  jwt_link config jwt =
      map_err (λ e. text "failed to initialize JWKS client")
        (ports.open_jwks jwt.issuer jwt.jwks_refresh_secs)
      >>= λ key_for. introspector_of jwt >>= λ introspector. ok (λ cache now bearer.
        (Jwt.authenticate ports.tokens sha256 (policy_of jwt) (scripts_of config) key_for
          introspector cache bearer now).1)

  -- The authenticator, and the cache of introspection results, of a configuration and its JWTs.
  unfoldable pub authenticators :
      Config.Config → Option Config.JwtConfig → Result (Timed × Option IntrospectionCache) Text
  unfolding authenticate_chain authenticate_static identities jwt_link
  authenticators config none = ok (
    λ cache now.
        authenticate_chain (authenticate_static sha256 (identities config.static_tokens) ∷ []),
    none,
  )
  authenticators config (some jwt) = jwt_link config jwt >>= λ link. ok (
    λ cache now.
        authenticate_chain
          (link cache now ∷ authenticate_static sha256 (identities config.static_tokens) ∷ []),
    some (Introspection.new jwt.introspection.cache_secs),
  )

  -- `main`, up to the listener.
  unfoldable pub start : Config.Config → Result (Process F) Text
  unfolding authenticators bind_address
  start config =
      if is_some config.server.tls
      then err (text "server.tls is configured, but direct TLS serving is not implemented yet")
      else (authenticators config config.jwt >>= λ made. ok (record {
        authenticator = made.0;
        limiter = RateLimit.new f config.server.per_token_commands_per_sec;
        address = bind_address config.server.bind (show_nat config.server.port);
        introspected = made.1;
      }))

-- What maintenance works on.
pub record Kept (F : Type 0) : Type 0 where
  pub pools : Map PoolEntry
  pub limiter : RateLimiter F
  pub introspected : Option IntrospectionCache

-- `sweep_introspection_cache`, of a JWT link if there is one.
unfoldable pub swept : Option IntrospectionCache → ℕ → Option IntrospectionCache
unfolding Introspection.sweep
swept none now = none
swept (some cache) now = some (Introspection.sweep cache now).0

module _ (f : Float) where
  open f use {F}

  -- One tick of `run_pool_maintenance`: the clock in nanoseconds, and in seconds for the pools.
  unfoldable pub maintain : Kept F → (now unix_secs : ℕ) → Kept F
  unfolding evict_idle sweep_idle swept
  maintain k now unix_secs = record {
    pools = (evict_idle k.pools unix_secs).0;
    limiter = (sweep_idle f k.limiter now).0;
    introspected = swept k.introspected now;
  }
