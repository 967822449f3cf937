-- ===== src/Config/Load.antt =====
-- src/config.rs: loading a configuration, from the environment or a file of either format. Reading a
-- file, JSON and serde, the parsers of numbers, URLs and addresses, and SHA-256 are parameters.
use srh_rs.Base.{
  ℕ, Bool, false, List, [], Option, none, some, Text, text, text_eq, Map, has_key, any, Result, ok,
  err, ◌>>=◌, map, if◌then◌else◌,
}
use srh_rs.Auth.{StaticTokenConfig}
use srh_rs.Config.{
  ConfigError, invalid_environment, read_failed, json_failed, Checked, PoolConfig, Config, validate,
}
use srh_rs.Config.Tokens.{or_else, Loaded, from_legacy}
use srh_rs.Config.Modern.{from_new}
use srh_rs.Config.Environment.{from_env_mode, apply_server_overrides}
use srh_rs.Config.Raw.{
  default_server, server_of, jwt_of, raw_pool_of, raw_token_of, raw_legacy_of, GivenLegacyToken,
  RawConfig,
}

-- What the standard library and packages do: a document's members, if it is an object, and serde's
-- readings of it.
pub record Outside : Type 1 where
  pub Value : Type 0
  pub read_to_string : Text → Result Text Text
  pub from_str : Text → Result Value Text
  pub as_object : Value → Option (List (Text × Value))
  pub legacy_entries : Value → Result (List (Text × GivenLegacyToken)) Text
  pub raw_config : Value → Result RawConfig Text
  pub parse_u16 : Text → Result ℕ Text
  pub parse_usize : Text → Result ℕ Text
  pub scheme_of : Text → Result Text Text
  pub socket_addr : Text → Checked
  pub sha256 : Text → Text

module _ (o : Outside) where
  open o use {Value}

  json_error : {A : Type 0} → Result A Text → Result A ConfigError
  json_error (ok a) = ok a
  json_error (err message) = err (json_failed message)

  unfoldable pub has_connection_string : Value → Bool
  unfolding has_key
  has_connection_string value = elim (o.as_object value) [
    | none ↦ false
    | some entry ↦ has_key (text "connection_string") entry
  ]

  unfoldable pub is_legacy : Value → Bool
  unfolding has_connection_string
  is_legacy value = elim (o.as_object value) [
    | none ↦ false
    | some entries ↦ any (λ e. has_connection_string e.1) entries
  ]

  -- A configuration of tokens and pools alone.
  unfoldable pub with_defaults : Loaded → Config
  with_defaults (tokens, pools) = record {
    server = default_server;
    jwt = none;
    static_tokens = tokens;
    pools = pools;
    pool_scripts = [];
  }

  unfoldable pub from_legacy_value : Value → Result Config ConfigError
  unfolding json_error raw_legacy_of from_legacy with_defaults
  from_legacy_value value = json_error (o.legacy_entries value) >>= λ entries.
      from_legacy o.sha256 (map (λ e. (e.0, raw_legacy_of e.1)) entries) ([], []) >>= λ loaded.
      ok (with_defaults loaded)

  unfoldable pub assemble :
      RawConfig → Map StaticTokenConfig × Map (PoolConfig × List Text) → Config
  unfolding server_of jwt_of
  assemble raw (tokens, pools) = record {
    server = elim raw.server [ none ↦ default_server | some server ↦ server_of server ];
    jwt = elim raw.jwt [ none ↦ none | some jwt ↦ some (jwt_of jwt) ];
    static_tokens = tokens;
    pools = map (λ p. (p.0, p.1.0)) pools;
    pool_scripts = map (λ p. (p.0, p.1.1)) pools;
  }

  unfoldable pub from_new_value : Value → Result Config ConfigError
  unfolding json_error raw_token_of raw_pool_of from_new assemble
  from_new_value value = json_error (o.raw_config value) >>= λ raw.
      from_new o.sha256 (map (λ e. (e.0, raw_token_of e.1)) raw.static_tokens)
        (map (λ p. (p.0, raw_pool_of p.1)) raw.pools)
      >>= λ loaded. ok (assemble raw loaded)

  unfoldable pub validated : Config → Result Config ConfigError
  unfolding validate
  validated config = validate o.scheme_of o.socket_addr config >>= λ u. ok config

  unfoldable pub from_json : Text → Result Config ConfigError
  unfolding json_error is_legacy from_legacy_value from_new_value validated
  from_json json = json_error (o.from_str json) >>= λ value.
      (if is_legacy value then from_legacy_value value else from_new_value value) >>= validated

  unfoldable pub from_path : Text → Result Config ConfigError
  unfolding from_json
  from_path path = elim (o.read_to_string path) [
    | ok json ↦ from_json json
    | err source ↦ err (read_failed path source)
  ]

  module _ (environment : Text → Option Text) where
    -- `from_environment`'s match on the mode.
    unfoldable pub of_mode : Text → Result Config ConfigError
    unfolding text_eq from_env_mode from_path with_defaults
    of_mode mode =
        if text_eq mode (text "env")
        then (from_env_mode environment o.parse_u16 o.parse_usize o.sha256 >>= λ loaded.
            ok (with_defaults loaded))
        else if text_eq mode (text "file")
        then from_path
            (or_else (environment (text "SRH_CONFIG_PATH")) (text "./srh-config/tokens.json"))
        else err (invalid_environment (text "SRH_MODE") (text "expected `file` or `env`"))

    unfoldable pub from_environment : Result Config ConfigError
    unfolding of_mode apply_server_overrides validated
    from_environment = of_mode (or_else (environment (text "SRH_MODE")) (text "file")) >>= λ config.
        apply_server_overrides environment o.parse_u16 o.parse_usize config.server >>= λ server.
        validated (record config { server = server })
