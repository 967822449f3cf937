-- ===== src/Config/Sound.antt =====
-- src/config.rs: what a configuration that passes validation is.
use srh_rs.Base.{
  ℕ, ◌+◌, ◌*◌, ◌<◌, ◌≡◌, true, not, [], ◌∷◌, ◌++◌, Text, text, is_empty, Map, has_key, All, Result,
  ok, >>=-eq-ok, arith,
}
use srh_rs.Auth.{StaticTokenConfig}
use srh_rs.Config.{
  Checked, ServerConfig, PoolConfig, Config, require, pool_field, validate_nonzero, validate_server,
  validate_timeouts, validate_pool, validate_pools, validate_tokens, validate_jwt, validate,
}

-- What the rest of the program relies on of a pool: every bound is positive, and its waits fit in a
-- request's deadline without overflow.
pub record IsSound (server : ServerConfig) (pool : PoolConfig) : Type 0 where
  pub connections : 0 < pool.max_connections
  pub waiters : 0 < pool.max_waiters
  pub threshold : 0 < pool.failure_threshold
  pub cooldown : 0 < pool.cooldown_ms
  pub deadline : pool.acquire_timeout_ms + 2 * pool.command_timeout_ms < server.http_timeout_ms

nonzero-eq-ok : (name : Text) (n : ℕ) (u : Unit {0}) → validate_nonzero name n ≡ ok u → 0 < n
unfolding validate_nonzero
nonzero-eq-ok name n u h = ground arith

-- The limits that the handlers and the layers around them divide by, wait for or count to.
pub record Serves (server : ServerConfig) : Type 0 where
  pub body : 0 < server.max_body_bytes
  pub commands : 0 < server.max_pipeline_commands
  pub elements : 0 < server.max_request_elements
  pub in_flight : 0 < server.load.max_in_flight
  pub replies : 0 < server.load.max_response_bytes
  pub deadlines : (0 < server.http_timeout_ms) × (0 < server.load.body_read_timeout_ms)

server-Serves :
    (server : ServerConfig) (u : Unit {0}) → validate_server server ≡ ok u → Serves server
unfolding validate_server validate_nonzero
server-Serves server u h = record {
  body = ground (arith, h);
  commands = ground (arith, h);
  elements = ground (arith, h);
  in_flight = ground (arith, h);
  replies = ground (arith, h);
  deadlines = ground (arith, h);
}

timeouts-eq-ok :
    (server : ServerConfig) (name : Text) (pool : PoolConfig) (u : Unit {0})
    → validate_timeouts server name pool ≡ ok u
    → pool.acquire_timeout_ms + 2 * pool.command_timeout_ms < server.http_timeout_ms
unfolding validate_timeouts
timeouts-eq-ok server name pool u h = ground arith

pool-IsSound :
    (server : ServerConfig) (name : Text) (pool : PoolConfig) (u : Unit {0})
    → validate_pool server name pool ≡ ok u
    → IsSound server pool
unfolding validate_pool
pool-IsSound server name pool u h =
    let (u1, named, h1) =
      >>=-eq-ok
        (require (not (is_empty pool.connection_string))
          (pool_field name (text ".connection_string must not be empty")))
        _ h in
    let (u2, connects, h2) =
      >>=-eq-ok (validate_nonzero (pool_field name (text ".max_connections")) pool.max_connections)
        _ h1 in
    let (u3, commands, h3) =
      >>=-eq-ok
        (validate_nonzero (pool_field name (text ".command_timeout_ms")) pool.command_timeout_ms) _
        h2 in
    let (u4, acquires, h4) =
      >>=-eq-ok
        (validate_nonzero (pool_field name (text ".acquire_timeout_ms")) pool.acquire_timeout_ms) _
        h3 in
    let (u5, waits, h5) =
      >>=-eq-ok (validate_nonzero (pool_field name (text ".max_waiters")) pool.max_waiters) _ h4 in
    let (u6, fails, h6) =
      >>=-eq-ok
        (validate_nonzero (pool_field name (text ".breaker.failure_threshold"))
          pool.failure_threshold)
        _ h5 in
    let (u7, cools, h7) =
      >>=-eq-ok (validate_nonzero (pool_field name (text ".breaker.cooldown_ms")) pool.cooldown_ms)
        _ h6 in
    record {
      connections =
          nonzero-eq-ok (pool_field name (text ".max_connections")) pool.max_connections u2
            connects;
      waiters = nonzero-eq-ok (pool_field name (text ".max_waiters")) pool.max_waiters u5 waits;
      threshold =
          nonzero-eq-ok (pool_field name (text ".breaker.failure_threshold")) pool.failure_threshold
            u6 fails;
      cooldown =
          nonzero-eq-ok (pool_field name (text ".breaker.cooldown_ms")) pool.cooldown_ms u7 cools;
      deadline = timeouts-eq-ok server name pool u h7;
    }

pools-IsSound :
    (server : ServerConfig) (pools : Map PoolConfig) (u : Unit {0})
    → validate_pools server pools ≡ ok u
    → All (λ p. IsSound server p.1) pools
unfolding validate_pools
pools-IsSound server [] u h = tt
pools-IsSound server ((name, pool) ∷ pools) u h =
    let (u1, sound, rest) = >>=-eq-ok (validate_pool server name pool) _ h in
    (pool-IsSound server name pool u1 sound, pools-IsSound server pools u rest)

tokens-All :
    (pools : Map PoolConfig) (tokens : Map StaticTokenConfig) (u : Unit {0})
    → validate_tokens pools tokens ≡ ok u
    → All (λ t. has_key t.1.pool pools ≡ true) tokens
unfolding validate_tokens
tokens-All pools [] u h = tt
tokens-All pools ((digest, token) ∷ tokens) u h =
    let (u1, known, rest) =
      >>=-eq-ok
        (require (has_key token.pool pools)
          (text "static token references missing pool '" ++ (token.pool ++ text "'")))
        _ h in
    (ground (arith, known), tokens-All pools tokens u rest)

module _ (scheme_of : Text → Result Text Text) (socket_addr : Text → Checked) where
  -- In a configuration that passes validation, no limit of the server is zero, every static token's
  -- pool exists, and every pool has connections, waiters, a breaker threshold and a cooldown, none of
  -- them zero, and waits for a connection and twice for a command within the deadline of a request.
  pub validate-IsSound :
      (config : Config)
      → validate scheme_of socket_addr config ≡ ok tt
      → Serves config.server
        × All (λ t. has_key t.1.pool config.pools ≡ true) config.static_tokens
        × All (λ p. IsSound config.server p.1) config.pools
  unfolding validate
  validate-IsSound config h =
      let (u1, served, h1) = >>=-eq-ok (validate_server config.server) _ h in
      let (u2, bound, h2) = >>=-eq-ok (socket_addr config.server.metrics_bind) _ h1 in
      let (u3, jwt, h3) = >>=-eq-ok (validate_jwt scheme_of socket_addr config.jwt) _ h2 in
      let (u4, tokens, h4) = >>=-eq-ok (validate_tokens config.pools config.static_tokens) _ h3 in
      (
        server-Serves config.server u1 served,
        tokens-All config.pools config.static_tokens u4 tokens,
        pools-IsSound config.server config.pools tt h4,
      )
