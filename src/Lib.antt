-- ===== src/Lib.antt =====
-- srh-rs, an HTTP front end to Redis that speaks the Upstash REST protocol: its decisions as
-- definitions, and what is true of them.
--
-- A request passes the extractor (src/http/extractors.rs), which authenticates the bearer
-- (src/adapters/auth_chain.rs, static_auth.rs, jwt_auth.rs) and probes the rate limiter; then its
-- handler (src/http/command.rs, pipeline.rs, multi_exec.rs) parses the body, charges the limiter
-- (src/domain/rate_limit.rs), asks the command policy (src/domain/acl.rs), rewrites what the
-- compatibility layer rewrites (src/domain/compat.rs), acquires an executor of the identity's pool,
-- runs the commands behind the circuit breaker (src/domain/breaker.rs,
-- src/adapters/breaker_executor.rs), charges the replies to the response budget and writes them
-- (src/domain/convert.rs). Errors become responses in src/error.rs.
--
-- Files:
--   Base          names of the libraries, texts as bytes, results, maps, ordered indices
--   Resp          src/domain/resp.rs, and RedisCommand of src/ports/mod.rs
--   Identity      src/domain/identity.rs
--   Breaker       src/domain/breaker.rs: new, admit, record (record_outcome), cancel; its children
--                 hold the invariant, the probe, the cooldown and the threshold
--   Breaker/Executor  src/adapters/breaker_executor.rs and the release of a handle in
--                 src/ports/mod.rs
--   RateLimit     src/domain/rate_limit.rs: access (access_at), sweep_idle,
--                 take_debt_forgiven_evictions; Linked, Evict, Charging, Swept and Sweep hold
--                 the invariant, Settle the answers
--   Acl           src/domain/acl.rs: check; Decision and Guarantees say what it permits
--   Compat        src/domain/compat.rs: normalize
--   Convert       src/domain/convert.rs: charge_response_budget, and ResponseJson (serialize)
--   Failure       src/error.rs, and the labels of src/http/observability.rs
--   Parse         src/http/parse.rs, and json_value_to_bytes of src/domain/convert.rs; Document is
--                 what serde_json hands over, Reference what a document means without a budget
--   Config        src/config.rs: Config::validate; Digest, Tokens and Environment are the digests of
--                 tokens, the old format, and what the environment sets; Raw and Modern are the new
--                 format, Load is Config::from_environment; Sound and Started are about it
--   Fred          src/adapters/fred_executor.rs: fred_frame_to_resp; Client holds commands, pipelines
--                 and transactions, Transaction and Reset are about it
--   Jwks          src/adapters/http_jwks.rs: the key cache, with a count of the refreshes that made
--                 requests; Forced, Family and Signing are about it
--   Pool          src/adapters/pool_manager.rs: Entry is the state of a pool, Task an acquisition and
--                 the drop of its handle as moves of concurrent tasks, Manager the pools by name,
--                 Readiness their probes; Reach holds the invariant of any order of moves, Safety,
--                 Search and Gauge what follows
--   Http          src/http: Effect is the server's state and the shared steps of command.rs;
--                 Command, Pipeline and MultiExec are the handlers, Health is the readiness
--                 endpoint; Serve is the router of src/http/mod.rs with the body's limit, InFlight
--                 the limit of requests in flight, Observe what observability.rs records, Audit a
--                 request with its notes for the log; Charged, Sends, Permitted and Answered are about
--                 the handlers, Served, Noted and Audited about the server, Balanced and Labelled about
--                 any order of requests
--   Outbound      src/adapters/outbound_http.rs; Introspect is src/adapters/http_introspect.rs
--   Start         src/main.rs: the parts of a process and run_pool_maintenance; Started is about them
--   Auth          src/adapters/auth_chain.rs and static_auth.rs; Introspection and Jwt are
--                 jwt_auth.rs, Expiry, Remembered, Addressed and Soundness are about them, Bearer is
--                 src/http/extractors.rs
--
-- A definition takes its state and returns the new one; a lock's critical section is one
-- definition, so any interleaving of callers is a list of operations. Times are readings of the
-- clock in nanoseconds, arguments of the operations. Integers keep their width: `usize` and `u64`
-- have 64 bits. A text is its UTF-8 bytes; a hash map is an association list. No definition runs on
-- fuel: every loop is recursion on a list, a count or a reply.
--
-- Parameters: the operations on `f64` (RateLimit/Floats), SHA-256, the base64 encoder, serde_json
-- (Parse/Document.Json; the handlers take a parser, which `command` and `pipeline` of Parse are
-- with their limits given), files, serde and the parsers of numbers, URLs and addresses
-- (Config/Load.Outside), the `jsonwebtoken` package with the key and introspection ports
-- (Auth/Jwt.Tokens), HTTP requests (Jwks.Web, Outbound/Introspect.Web), the answers of the Redis
-- client (Fred/Client), and the executors behind the pool provider (Http/Effect.Backend). A frame
-- of the client is a data type of the kinds that the source names.
--
-- Not modelled: sockets, signals, the runtime, tracing and the client of TLS, which are I/O and calls
-- of libraries. Of the metrics there are the count of forgiven debts, the gauges of permits and of
-- requests in flight, and the counts of requests and of shed ones.
pub mod Acl
pub mod Auth
pub mod Base
pub mod Breaker
pub mod Compat
pub mod Config
pub mod Convert
pub mod Failure
pub mod Fred
pub mod Http
pub mod Identity
pub mod Jwks
pub mod Outbound
pub mod Parse
pub mod Pool
pub mod RateLimit
pub mod Resp
pub mod Start
