-- ===== src/Config/Tests.antt =====
-- A configuration with one pool and one token that passes validation.
use srh_rs.Base.{
  ℕ, false, ◌++◌, err, Option, some, List, text_eq, hex_digest, if◌then◌else◌, arith, ◌≡◌, refl, [],
  ◌∷◌, none, Text, text, Result, ok, All, has_key, is_empty,
}
use srh_rs.Config.Digest.{parse_configured_digest, parse-digest_hex}
use srh_rs.Config.Tokens.{
  default_token, RawLegacyToken, Loaded, from_legacy, from_legacy-Connects, Connects, pool_name,
  place_pool, legacy_pool,
}
use srh_rs.Config.Environment.{apply_server_overrides}
use srh_rs.Config.{Config, ConfigError, Checked, PoolConfig, ServerConfig, validate}

abbrev http_only : Text → Result Text Text
http_only url = ok (text "http")

abbrev any_address : Text → Checked
any_address address = ok tt

abbrev server : ServerConfig
server = record {
  port = 80;
  bind = text "0.0.0.0";
  tls = none;
  max_body_bytes = 10485760;
  max_pipeline_commands = 1000;
  max_request_elements = 10000;
  http_timeout_ms = 10000;
  per_token_commands_per_sec = 0;
  load = record {
    max_in_flight = 512;
    max_response_bytes = 33554432;
    shed_retry_after_secs = 1;
    body_read_timeout_ms = 2000;
  };
  metrics_bind = text "127.0.0.1:9422";
}

abbrev pool : PoolConfig
pool = record {
  connection_string = text "redis://cache";
  max_connections = 3;
  command_timeout_ms = 2000;
  acquire_timeout_ms = 1000;
  max_waiters = 12;
  failure_threshold = 5;
  cooldown_ms = 1000;
}

abbrev one_pool : Config
one_pool = record {
  server = server;
  jwt = none;
  static_tokens = (text "digest", default_token (text "default") false) ∷ [];
  pools = (text "default", pool) ∷ [];
  pool_scripts = [];
}

passes : validate http_only any_address one_pool ≡ ok tt
unfolding validate has_key is_empty default_token
passes = refl

abbrev thirty_two : Text
thirty_two =
    0 ∷ 1 ∷ 2 ∷ 3 ∷ 4 ∷ 5 ∷ 6 ∷ 7 ∷ 8 ∷ 9 ∷ 10 ∷ 11 ∷ 12 ∷ 13 ∷ 14 ∷ 15 ∷ 16 ∷ 17 ∷ 18 ∷ 19 ∷ 20
    ∷ 21 ∷ 22 ∷ 23 ∷ 24 ∷ 25 ∷ 26 ∷ 27 ∷ 28 ∷ 29 ∷ 171 ∷ 255 ∷ []

abbrev first_bytes : Text → Text
first_bytes bearer = thirty_two

parse-digest_hex_example :
    parse_configured_digest first_bytes (text "sha256:" ++ hex_digest thirty_two) ≡ ok thirty_two
parse-digest_hex_example = parse-digest_hex first_bytes thirty_two refl (omega arith)

-- Two tokens of one pool.
abbrev old_entry : RawLegacyToken
old_entry = record {
  srh_id = some (text "cache");
  connection_string = text "redis://cache";
  max_connections = 3;
}

abbrev old_tokens : List (Text × RawLegacyToken)
old_tokens = (text "a", old_entry) ∷ (text "b", old_entry) ∷ []

abbrev nothing_loaded : Loaded
nothing_loaded = ([], [])

abbrev loaded_pools : Result Loaded ConfigError → List (Text × PoolConfig)
loaded_pools (ok loaded) = loaded.1
loaded_pools (err e) = []

abbrev itself : Text → Text
itself t = t

loads : (end : Loaded) × (from_legacy itself old_tokens nothing_loaded ≡ ok end)
unfolding from_legacy place_pool pool_name legacy_pool
loads = (_, refl)

from_legacy-Connects_example : All (Connects itself loads.0.1) old_tokens
from_legacy-Connects_example = from_legacy-Connects itself old_tokens nothing_loaded loads.0 loads.1

abbrev ipv6_environment : Text → Option Text
ipv6_environment name = if text_eq name (text "SRH_IPV6") then some (text "1") else none

abbrev no_number : Text → Result ℕ Text
no_number value = err (text "invalid digit found in string")

listens_on_ipv6 :
    apply_server_overrides ipv6_environment no_number no_number server
    ≡ ok (record server { bind = text "::" })
unfolding apply_server_overrides
listens_on_ipv6 = refl
