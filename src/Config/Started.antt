-- ===== src/Config/Started.antt =====
-- src/config.rs: what holds of a configuration that loads, and which environment is enough.
use srh_rs.Base.{
  ◌≡◌, refl, subst, true, false, [], ◌∷◌, Option, none, some, Text, text, text_eq_refl, has_key,
  lookup, All, ok, >>=-eq-ok, arith, is_empty,
}
use srh_rs.Auth.{identities, identity_of, authenticate_static}
use srh_rs.Config.{PoolConfig, Config, validate}
use srh_rs.Config.Tokens.{or_else, default_token, new_pool}
use srh_rs.Config.Environment.{
  required, parse_env, parse_bool_env, from_env_mode, apply_server_overrides,
}
use srh_rs.Config.Raw.{default_server}
use srh_rs.Config.Sound.{validate-IsSound, Serves, IsSound}
use srh_rs.Config.Load.{Outside, with_defaults, validated, of_mode, from_environment}

module _ (o : Outside) where
  -- What is read is validated o, with the overrides of the environment in place.
  validated-eq-ok :
      (config loaded : Config)
      → validated o config ≡ ok loaded
      → (validate o.scheme_of o.socket_addr loaded ≡ ok tt) × (config ≡ loaded)
  unfolding validated
  validated-eq-ok config loaded h =
      let (u, passes, same) = >>=-eq-ok (validate o.scheme_of o.socket_addr config) _ h in
      let is : config ≡ loaded = ground (arith, same) in
      (subst (λ c. validate o.scheme_of o.socket_addr c ≡ ok tt) is passes, is)

  -- Whatever the environment and the files hold, a configuration that loads is sound: no limit of the
  -- server is zero, every static token's pool exists, and every pool has connections, waiters and a
  -- breaker whose numbers are not zero, and waits that fit within the deadline of a request.
  pub from_environment-IsSound :
      (environment : Text → Option Text) (config : Config)
      → from_environment o environment ≡ ok config
      → Serves config.server
        × All (λ t. has_key t.1.pool config.pools ≡ true) config.static_tokens
        × All (λ p. IsSound config.server p.1) config.pools
  unfolding from_environment
  from_environment-IsSound environment config h =
      let (read, of_file, h1) =
        >>=-eq-ok (of_mode o environment (or_else (environment (text "SRH_MODE")) (text "file"))) _
          h in
      let (server, overridden, h2) =
        >>=-eq-ok (apply_server_overrides environment o.parse_u16 o.parse_usize read.server) _ h1 in
      validate-IsSound o.scheme_of o.socket_addr config
        (validated-eq-ok (record read { server = server }) config h2).0

  -- The environment of the original deployment: a token and a connection string, and nothing else
  -- that the server reads.
  pub record Minimal (environment : Text → Option Text) (token connection : Text) : Type 0 where
    pub mode : environment (text "SRH_MODE") ≡ some (text "env")
    pub token_is : environment (text "SRH_TOKEN") ≡ some token
    pub connects : environment (text "SRH_CONNECTION_STRING") ≡ some connection
    pub connections : environment (text "SRH_MAX_CONNECTIONS") ≡ none
    pub bind : environment (text "SRH_BIND") ≡ none
    pub port : environment (text "SRH_PORT") ≡ none
    pub ipv6 : environment (text "SRH_IPV6") ≡ none

  minimal_config : Text → Text → Config
  unfolding with_defaults new_pool default_token
  minimal_config token connection = with_defaults o (
    (o.sha256 token, default_token (text "default") true) ∷ [],
    (text "default", new_pool connection 3 2000 500 none none) ∷ [],
  )

  minimal_passes :
      (token connection : Text)
      → is_empty connection ≡ false
      → o.socket_addr (text "127.0.0.1:9422") ≡ ok tt
      → validate o.scheme_of o.socket_addr (minimal_config token connection) ≡ ok tt
  unfolding minimal_config with_defaults new_pool default_token validate has_key
  minimal_passes token connection full address = rw (address, full) refl

  env_reads :
      (environment : Text → Option Text) (token connection : Text)
      → Minimal environment token connection
      → of_mode o environment (text "env") ≡ ok (minimal_config token connection)
  unfolding of_mode from_env_mode minimal_config required parse_env
  env_reads environment token connection m =
      rw (m.token_is, of_mode, from_env_mode, required)
        (rw (m.connects, required) (rw (m.connections, parse_env) refl))

  env_kept :
      (environment : Text → Option Text) (token connection : Text)
      → Minimal environment token connection
      → apply_server_overrides environment o.parse_u16 o.parse_usize default_server
        ≡ ok default_server
  unfolding apply_server_overrides parse_env parse_bool_env
  env_kept environment token connection m =
      rw m.bind (rw (m.port, parse_env) (rw (m.ipv6, parse_bool_env) refl))

  -- With the mode `env`, a token, a connection string that is not empty, and the limit of connections
  -- and the bind, port and IPv6 variables unset, the configuration loads, if the default address of
  -- the metrics parses; static authentication then knows the token, as a legacy token of the one
  -- pool, which has that connection.
  pub env_loads :
      (environment : Text → Option Text) (token connection : Text)
      → Minimal environment token connection
      → is_empty connection ≡ false
      → o.socket_addr (text "127.0.0.1:9422") ≡ ok tt
      → (config : Config) × (from_environment o environment ≡ ok config)
        × (authenticate_static o.sha256 (identities config.static_tokens) token
            ≡ ok (some (identity_of (o.sha256 token) (default_token (text "default") true))))
        × (pool : PoolConfig) × (lookup (text "default") config.pools ≡ some pool)
        × (pool.connection_string ≡ connection)
  unfolding from_environment minimal_config with_defaults new_pool identities authenticate_static
      lookup
  env_loads environment token connection m full address = (
    minimal_config token connection,
    rw (m.mode, from_environment)
        (rw (env_reads environment token connection m) (
          rw (env_kept environment token connection m)
            (rw (minimal_passes token connection full address, validated) refl))),
    ground (arith, text_eq_refl (o.sha256 token)),
    new_pool connection 3 2000 500 none none,
    refl,
    refl,
  )
