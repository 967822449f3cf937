-- ===== src/Config.antt =====
-- src/config.rs: the validation of a configuration. Parsing a URL, of which only the scheme is read,
-- and parsing a socket address are packages', and parameters. A `HashMap` is a list of its entries.
pub mod Digest
pub mod Tokens
pub mod Environment
pub mod Modern
pub mod Raw
pub mod Sound
pub mod Load
pub mod Started
mod Tests
mod LoadTests
use srh_rs.Auth.{StaticTokenConfig}
use srh_rs.Base.{
  ℕ, zero, suc, ◌+◌, ◌*◌, ◌<◌, ◌≤◌, ◌≡◌, refl, Bool, true, false, not, ◌&&◌, ◌||◌, List, [], ◌∷◌,
  ◌++◌, Option, none, some, Text, text, text_eq, is_empty, Map, has_key, All, Result, ok, err,
  ◌>>=◌, ◌>>◌, ok_or, map_err, >>=-eq-ok, leb, ltb, ◌==◌, if◌then◌else◌, u64_mod, arith, Bool-cases,
  inl, inr,
}

pub data ConfigError : Type 0 where
  validation : Text → ConfigError
  missing_environment : Text → ConfigError
  invalid_environment : (name reason : Text) → ConfigError
  read_failed : (path source : Text) → ConfigError
  json_failed : Text → ConfigError

pub record LoadConfig : Type 0 where
  pub max_in_flight : ℕ
  pub max_response_bytes : ℕ
  pub shed_retry_after_secs : ℕ
  pub body_read_timeout_ms : ℕ

pub record ServerConfig : Type 0 where
  pub port : ℕ
  pub bind : Text
  pub tls : Option (Text × Text)
  pub max_body_bytes : ℕ
  pub max_pipeline_commands : ℕ
  pub max_request_elements : ℕ
  pub http_timeout_ms : ℕ
  pub per_token_commands_per_sec : ℕ
  pub load : LoadConfig
  pub metrics_bind : Text

pub record IntrospectionConfig : Type 0 where
  pub enabled : Bool
  pub url : Text
  pub client_id : Text
  pub client_secret : Text
  pub cache_secs : ℕ

pub record JwtConfig : Type 0 where
  pub issuer : Text
  pub audience : Text
  pub jwks_refresh_secs : ℕ
  pub role_prefix : Text
  pub client_id : Text
  pub introspection : IntrospectionConfig

pub record PoolConfig : Type 0 where
  pub connection_string : Text
  pub max_connections : ℕ
  pub command_timeout_ms : ℕ
  pub acquire_timeout_ms : ℕ
  pub max_waiters : ℕ
  pub failure_threshold : ℕ
  pub cooldown_ms : ℕ

-- Static tokens by their digests; the scripts of a pool stand beside it.
pub record Config : Type 0 where
  pub server : ServerConfig
  pub jwt : Option JwtConfig
  pub static_tokens : Map StaticTokenConfig
  pub pools : Map PoolConfig
  pub pool_scripts : Map (List Text)

abbrev pub Checked : Type 0
Checked = Result (Unit {0}) ConfigError

unfoldable pub validate_nonzero : Text → ℕ → Checked
validate_nonzero name value =
    if value == 0 then err (validation (name ++ text " must be greater than zero")) else ok tt

abbrev pub require : Bool → Text → Checked
require holds message = if holds then ok tt else err (validation message)

unfoldable pub validate_server : ServerConfig → Checked
unfolding validate_nonzero
validate_server server = do
  validate_nonzero (text "server.port") server.port
  validate_nonzero (text "server.max_body_bytes") server.max_body_bytes
  validate_nonzero (text "server.max_pipeline_commands") server.max_pipeline_commands
  validate_nonzero (text "server.max_request_elements") server.max_request_elements
  validate_nonzero (text "server.http_timeout_ms") server.http_timeout_ms
  validate_nonzero (text "server.load.max_in_flight") server.load.max_in_flight
  validate_nonzero (text "server.load.max_response_bytes") server.load.max_response_bytes
  validate_nonzero (text "server.load.shed_retry_after_secs") server.load.shed_retry_after_secs
  validate_nonzero (text "server.load.body_read_timeout_ms") server.load.body_read_timeout_ms

abbrev fits : ℕ → Option ℕ
fits n = if ltb n u64_mod then some n else none

overflows : Text → ConfigError
overflows name = validation (text "timeouts overflow for pool '" ++ (name ++ text "'"))

unfoldable pub pool_field : Text → Text → Text
pool_field name field = text "pools." ++ (name ++ field)

-- The time that one request may wait for a pool, against the deadline of the request.
unfoldable pub validate_timeouts : ServerConfig → Text → PoolConfig → Checked
unfolding overflows
validate_timeouts server name pool = do
  command_and_reset ← ok_or (fits (pool.command_timeout_ms * 2)) (overflows name)
  total ← ok_or (fits (pool.acquire_timeout_ms + command_and_reset)) (overflows name)
  require (not (leb server.http_timeout_ms total)) (
      text "pool '"
      ++ (name ++ text "' requires acquire_timeout_ms + 2 * command_timeout_ms < http_timeout_ms"))

unfoldable pub validate_pool : ServerConfig → Text → PoolConfig → Checked
unfolding validate_nonzero validate_timeouts pool_field
validate_pool server name pool = do
  require (not (is_empty pool.connection_string))
      (pool_field name (text ".connection_string must not be empty"))
  validate_nonzero (pool_field name (text ".max_connections")) pool.max_connections
  validate_nonzero (pool_field name (text ".command_timeout_ms")) pool.command_timeout_ms
  validate_nonzero (pool_field name (text ".acquire_timeout_ms")) pool.acquire_timeout_ms
  validate_nonzero (pool_field name (text ".max_waiters")) pool.max_waiters
  validate_nonzero (pool_field name (text ".breaker.failure_threshold")) pool.failure_threshold
  validate_nonzero (pool_field name (text ".breaker.cooldown_ms")) pool.cooldown_ms
  validate_timeouts server name pool

unfoldable pub validate_pools : ServerConfig → Map PoolConfig → Checked
unfolding validate_pool
validate_pools server [] = ok tt
validate_pools server ((name, pool) ∷ pools) = do
  validate_pool server name pool
  validate_pools server pools

unfoldable pub validate_tokens : Map PoolConfig → Map StaticTokenConfig → Checked
validate_tokens pools [] = ok tt
validate_tokens pools ((digest, token) ∷ tokens) = do
  require (has_key token.pool pools)
      (text "static token references missing pool '" ++ (token.pool ++ text "'"))
  validate_tokens pools tokens

-- `scheme_of` parses a URL, and `socket_addr` an address; an error comes with its message.
module _ (scheme_of : Text → Result Text Text) (socket_addr : Text → Checked) where
  validate_url : Text → Text → Checked
  validate_url name url = do
    scheme ←
        map_err (λ error. validation (name ++ (text " is not a valid URL: " ++ error)))
          (scheme_of url)
    require (text_eq scheme (text "http") || text_eq scheme (text "https"))
        (name ++ text " must use http or https")

  validate_introspection : IntrospectionConfig → Checked
  unfolding validate_nonzero validate_url
  validate_introspection i = if not i.enabled then ok tt else do
    validate_url (text "auth.jwt.introspection.url") i.url
    require (not (is_empty i.client_id || is_empty i.client_secret))
        (text "enabled JWT introspection requires client_id and client_secret")
    validate_nonzero (text "auth.jwt.introspection.cache_secs") i.cache_secs

  unfoldable pub validate_jwt : Option JwtConfig → Checked
  unfolding validate_nonzero validate_url validate_introspection
  validate_jwt none = ok tt
  validate_jwt (some jwt) = do
    validate_url (text "auth.jwt.issuer") jwt.issuer
    require (not (is_empty jwt.audience || is_empty jwt.client_id))
        (text "auth.jwt.audience and auth.jwt.client_id must not be empty")
    validate_nonzero (text "auth.jwt.jwks_refresh_secs") jwt.jwks_refresh_secs
    validate_introspection jwt.introspection

  unfoldable pub validate : Config → Checked
  unfolding validate_server validate_jwt validate_tokens validate_pools
  validate config = do
    validate_server config.server
    socket_addr config.server.metrics_bind
    validate_jwt config.jwt
    validate_tokens config.pools config.static_tokens
    validate_pools config.server config.pools
