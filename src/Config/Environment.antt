-- ===== src/Config/Environment.antt =====
-- src/config.rs: what the environment sets. Parsing a number is the standard library's, and a
-- parameter, with the text of its error.
use srh_rs.Base.{
  ℕ, Bool, true, false, Option, none, some, Text, text, text_eq, Result, ok, err, ◌>>=◌, [], ◌∷◌,
  if◌then◌else◌,
}
use srh_rs.Config.{ServerConfig, ConfigError, missing_environment, invalid_environment}
use srh_rs.Config.Tokens.{new_pool, or_else, default_token, Loaded}

module _ (environment : Text → Option Text) (parse_u16 parse_usize : Text → Result ℕ Text) where
  unfoldable pub required : Text → Result Text ConfigError
  required name = elim (environment name) [
    | none ↦ err (missing_environment name)
    | some value ↦ ok value
  ]

  unfoldable pub parse_env : (parse : Text → Result ℕ Text) → Text → Result (Option ℕ) ConfigError
  parse_env parse name = elim (environment name) [
    | none ↦ ok none
    | some value ↦ elim (parse value) [
      | ok n ↦ ok (some n)
      | err reason ↦ err (invalid_environment name reason)
    ]
  ]

  unfoldable pub bool_of : Text → Text → Result (Option Bool) ConfigError
  unfolding text_eq
  bool_of name value =
      if text_eq value (text "true")
      then ok (some true)
      else if text_eq value (text "1")
      then ok (some true)
      else if text_eq value (text "false")
      then ok (some false)
      else if text_eq value (text "0")
      then ok (some false)
      else err (invalid_environment name (text "expected true, false, 1, or 0"))

  unfoldable pub parse_bool_env : Text → Result (Option Bool) ConfigError
  unfolding bool_of
  parse_bool_env name = elim (environment name) [ none ↦ ok none | some value ↦ bool_of name value ]

  -- The bind address that `SRH_IPV6` puts in place of another.
  abbrev ipv6_bind : Text → Text
  ipv6_bind bind = if text_eq bind (text "0.0.0.0") then text "::" else text "::1"

  unfoldable pub apply_server_overrides : ServerConfig → Result ServerConfig ConfigError
  unfolding parse_env parse_bool_env
  apply_server_overrides server =
      let bind = or_else (environment (text "SRH_BIND")) server.bind in
      parse_env parse_u16 (text "SRH_PORT") >>= λ port. parse_bool_env (text "SRH_IPV6") >>= λ ipv6.
      ok (record server {
        bind = if or_else ipv6 false then ipv6_bind bind else bind;
        port = or_else port server.port;
      })

  -- `from_env_mode`: one token and one pool.
  unfoldable pub from_env_mode : (sha256 : Text → Text) → Result Loaded ConfigError
  unfolding required parse_env new_pool default_token
  from_env_mode sha256 = required (text "SRH_TOKEN") >>= λ token.
      required (text "SRH_CONNECTION_STRING") >>= λ connection_string.
      parse_env parse_usize (text "SRH_MAX_CONNECTIONS") >>= λ max_connections. ok (
        (sha256 token, default_token (text "default") true) ∷ [],
        (text "default", new_pool connection_string (or_else max_connections 3) 2000 500 none none)
            ∷ [],
      )
