-- ===== src/Config/Raw.antt =====
-- src/config.rs: the objects of a configuration file of the new format and their defaults. A field
-- that the file leaves out is `none`; serde, which refuses fields that it does not know, is outside.
use srh_rs.Base.{ℕ, Bool, false, List, [], Option, none, some, Text, text, Map}
use srh_rs.Config.{LoadConfig, ServerConfig, IntrospectionConfig, JwtConfig}
use srh_rs.Config.Tokens.{or_else, RawBreakerConfig, default_breaker, RawLegacyToken}
use srh_rs.Config.Modern.{RawStaticTokenConfig, RawPoolConfig}

-- `ServerConfig::default`.
abbrev pub default_server : ServerConfig
default_server = record {
  port = 80;
  bind = text "127.0.0.1";
  tls = none;
  max_body_bytes = 10485760;
  max_pipeline_commands = 1000;
  max_request_elements = 10000;
  http_timeout_ms = 10000;
  per_token_commands_per_sec = 0;
  load = record {
    max_in_flight = 512;
    max_response_bytes = 33554432;
    shed_retry_after_secs = 1;
    body_read_timeout_ms = 2000;
  };
  metrics_bind = text "127.0.0.1:9422";
}

pub record RawLoadConfig : Type 0 where
  pub max_in_flight : Option ℕ
  pub max_response_bytes : Option ℕ
  pub shed_retry_after_secs : Option ℕ
  pub body_read_timeout_ms : Option ℕ

-- The field of `rate_limit` stands in its place.
pub record RawServerConfig : Type 0 where
  pub port : Option ℕ
  pub bind : Option Text
  pub tls : Option (Text × Text)
  pub max_body_bytes : Option ℕ
  pub max_pipeline_commands : Option ℕ
  pub max_request_elements : Option ℕ
  pub http_timeout_ms : Option ℕ
  pub per_token_commands_per_sec : Option ℕ
  pub load : Option RawLoadConfig
  pub metrics_bind : Option Text

unfoldable pub load_of : RawLoadConfig → LoadConfig
load_of raw =
    let load = default_server.load in
    record {
      max_in_flight = or_else raw.max_in_flight load.max_in_flight;
      max_response_bytes = or_else raw.max_response_bytes load.max_response_bytes;
      shed_retry_after_secs = or_else raw.shed_retry_after_secs load.shed_retry_after_secs;
      body_read_timeout_ms = or_else raw.body_read_timeout_ms load.body_read_timeout_ms;
    }

unfoldable pub server_of : RawServerConfig → ServerConfig
unfolding load_of
server_of raw =
    let server = default_server in
    record {
      port = or_else raw.port server.port;
      bind = or_else raw.bind server.bind;
      tls = raw.tls;
      max_body_bytes = or_else raw.max_body_bytes server.max_body_bytes;
      max_pipeline_commands = or_else raw.max_pipeline_commands server.max_pipeline_commands;
      max_request_elements = or_else raw.max_request_elements server.max_request_elements;
      http_timeout_ms = or_else raw.http_timeout_ms server.http_timeout_ms;
      per_token_commands_per_sec = or_else raw.per_token_commands_per_sec 0;
      load = elim raw.load [ none ↦ server.load | some load ↦ load_of load ];
      metrics_bind = or_else raw.metrics_bind server.metrics_bind;
    }

pub record RawIntrospectionConfig : Type 0 where
  pub enabled : Option Bool
  pub url : Option Text
  pub client_id : Option Text
  pub client_secret : Option Text
  pub cache_secs : Option ℕ

abbrev pub default_introspection : IntrospectionConfig
default_introspection = record {
  enabled = false;
  url = [];
  client_id = [];
  client_secret = [];
  cache_secs = 30;
}

unfoldable pub introspection_of : RawIntrospectionConfig → IntrospectionConfig
introspection_of raw = record {
  enabled = or_else raw.enabled default_introspection.enabled;
  url = or_else raw.url default_introspection.url;
  client_id = or_else raw.client_id default_introspection.client_id;
  client_secret = or_else raw.client_secret default_introspection.client_secret;
  cache_secs = or_else raw.cache_secs default_introspection.cache_secs;
}

pub record RawJwtConfig : Type 0 where
  pub issuer : Option Text
  pub audience : Option Text
  pub jwks_refresh_secs : Option ℕ
  pub role_prefix : Option Text
  pub client_id : Option Text
  pub introspection : Option RawIntrospectionConfig

unfoldable pub jwt_of : RawJwtConfig → JwtConfig
unfolding introspection_of
jwt_of raw = record {
  issuer = or_else raw.issuer [];
  audience = or_else raw.audience [];
  jwks_refresh_secs = or_else raw.jwks_refresh_secs 600;
  role_prefix = or_else raw.role_prefix (text "redis:");
  client_id = or_else raw.client_id (text "srh");
  introspection = elim raw.introspection [
    | none ↦ default_introspection
    | some introspection ↦ introspection_of introspection
  ];
}

abbrev pub default_max_connections : ℕ
default_max_connections = 3

pub record GivenBreaker : Type 0 where
  pub failure_threshold : Option ℕ
  pub cooldown_ms : Option ℕ

unfoldable pub breaker_of : GivenBreaker → RawBreakerConfig
breaker_of given = record {
  failure_threshold = or_else given.failure_threshold default_breaker.failure_threshold;
  cooldown_ms = or_else given.cooldown_ms default_breaker.cooldown_ms;
}

pub record GivenPool : Type 0 where
  pub connection_string : Option Text
  pub max_connections : Option ℕ
  pub command_timeout_ms : Option ℕ
  pub acquire_timeout_ms : Option ℕ
  pub max_waiters : Option ℕ
  pub breaker : Option GivenBreaker
  pub allowed_script_sha256 : Option (List Text)

unfoldable pub raw_pool_of : GivenPool → RawPoolConfig
unfolding breaker_of
raw_pool_of given = record {
  connection_string = or_else given.connection_string [];
  max_connections = or_else given.max_connections default_max_connections;
  command_timeout_ms = or_else given.command_timeout_ms 2000;
  acquire_timeout_ms = or_else given.acquire_timeout_ms 500;
  max_waiters = given.max_waiters;
  breaker = elim given.breaker [ none ↦ default_breaker | some breaker ↦ breaker_of breaker ];
  allowed_script_sha256 = or_else given.allowed_script_sha256 [];
}

pub record GivenToken : Type 0 where
  pub pool : Option Text
  pub read_only : Option Bool
  pub allowed_commands : Option (List Text)
  pub blocked_commands : Option (List Text)
  pub allowed_script_sha256 : Option (List Text)
  pub key_prefix : Option Text

unfoldable pub raw_token_of : GivenToken → RawStaticTokenConfig
raw_token_of given = record {
  pool = or_else given.pool [];
  read_only = or_else given.read_only false;
  allowed_commands = given.allowed_commands;
  blocked_commands = or_else given.blocked_commands [];
  allowed_script_sha256 = or_else given.allowed_script_sha256 [];
  key_prefix = given.key_prefix;
}

-- An entry of the old format; without a connection string it is refused by serde.
pub record GivenLegacyToken : Type 0 where
  pub srh_id : Option Text
  pub connection_string : Text
  pub max_connections : Option ℕ

unfoldable pub raw_legacy_of : GivenLegacyToken → RawLegacyToken
raw_legacy_of given = record {
  srh_id = given.srh_id;
  connection_string = given.connection_string;
  max_connections = or_else given.max_connections default_max_connections;
}

pub record RawConfig : Type 0 where
  pub server : Option RawServerConfig
  pub jwt : Option RawJwtConfig
  pub static_tokens : List (Text × GivenToken)
  pub pools : Map GivenPool
