-- ===== src/Config/Modern.antt =====
-- src/config.rs: the tokens and pools of a configuration of the new format, as they are read from
-- JSON with their defaults filled in. SHA-256 is a parameter. The scripts that a pool permits stand
-- beside it.
use srh_rs.Base.{
  ℕ, ◌*◌, ◌≡◌, refl, Bool, false, ◌||◌, List, [], ◌∷◌, ◌++◌, Option, none, some, Text,
  to_ascii_lowercase, contains, Map, lookup, insert, Result, ok, ◌>>=◌, map, ltb, u64_mod,
  if◌then◌else◌, arith, Option-cases, inl, inr,
}
use srh_rs.Auth.{StaticTokenConfig}
use srh_rs.Config.{ConfigError, PoolConfig}
use srh_rs.Config.Digest.{parse_configured_digest}
use srh_rs.Config.Tokens.{RawBreakerConfig, new_pool, uppercase_set}

pub record RawStaticTokenConfig : Type 0 where
  pub pool : Text
  pub read_only : Bool
  pub allowed_commands : Option (List Text)
  pub blocked_commands : List Text
  pub allowed_script_sha256 : List Text
  pub key_prefix : Option Text

pub record RawPoolConfig : Type 0 where
  pub connection_string : Text
  pub max_connections : ℕ
  pub command_timeout_ms : ℕ
  pub acquire_timeout_ms : ℕ
  pub max_waiters : Option ℕ
  pub breaker : RawBreakerConfig
  pub allowed_script_sha256 : List Text

abbrev pub Pools : Type 0
Pools = Map (PoolConfig × List Text)

unfoldable pub token_of : RawStaticTokenConfig → StaticTokenConfig
unfolding uppercase_set
token_of entry = record {
  pool = entry.pool;
  read_only = entry.read_only;
  legacy = false;
  allowed_commands = elim entry.allowed_commands [
    | none ↦ none
    | some names ↦ some (uppercase_set names)
  ];
  blocked_commands = uppercase_set entry.blocked_commands;
  allowed_script_sha256 = map to_ascii_lowercase entry.allowed_script_sha256;
  key_prefix = entry.key_prefix;
}

-- `checked_mul(4)`.
abbrev four_times : ℕ → Option ℕ
four_times n = if ltb (n * 4) u64_mod then some (n * 4) else none

abbrev or_option : Option ℕ → Option ℕ → Option ℕ
or_option none other = other
or_option (some n) other = some n

unfoldable pub pool_of : RawPoolConfig → PoolConfig × List Text
unfolding new_pool
pool_of pool = (
  new_pool pool.connection_string pool.max_connections pool.command_timeout_ms
      pool.acquire_timeout_ms (or_option pool.max_waiters (four_times pool.max_connections))
      (some pool.breaker),
  map to_ascii_lowercase pool.allowed_script_sha256,
)

-- The pools by name; names in a JSON object's map are different.
unfoldable pub pools_of : Map RawPoolConfig → Pools
unfolding pool_of
pools_of [] = []
pools_of ((name, pool) ∷ pools) = (name, pool_of pool) ∷ pools_of pools

-- A token gets the scripts of its pool besides its own.
unfoldable pub extend : Pools → StaticTokenConfig → StaticTokenConfig
unfolding lookup
extend pools token = elim (lookup token.pool pools) [
  | none ↦ token
  | some (pool, scripts) ↦ record token {
    allowed_script_sha256 = token.allowed_script_sha256 ++ scripts;
  }
]

unfoldable pub extend_all : Pools → Map StaticTokenConfig → Map StaticTokenConfig
unfolding extend
extend_all pools [] = []
extend_all pools ((digest, token) ∷ tokens) = (digest, extend pools token) ∷ extend_all pools tokens

module _ (sha256 : Text → Text) where
  unfoldable pub tokens_of :
      List (Text × RawStaticTokenConfig)
      → Map StaticTokenConfig
      → Result (Map StaticTokenConfig) ConfigError
  unfolding parse_configured_digest insert token_of
  tokens_of [] tokens = ok tokens
  tokens_of ((token, entry) ∷ entries) tokens = parse_configured_digest sha256 token >>= λ digest.
      tokens_of entries (insert digest (token_of entry) tokens)

  -- `from_new_value`.
  unfoldable pub from_new :
      List (Text × RawStaticTokenConfig)
      → Map RawPoolConfig
      → Result (Map StaticTokenConfig × Pools) ConfigError
  unfolding tokens_of pools_of extend_all
  from_new entries raw_pools = tokens_of entries [] >>= λ tokens.
      let pools = pools_of raw_pools in ok (extend_all pools tokens, pools)

-- The scripts of a pool of that name.
abbrev pub scripts_in : Option (PoolConfig × List Text) → List Text
scripts_in none = []
scripts_in (some (pool, scripts)) = scripts

contains-append :
    (xs ys : List Text) (t : Text) → contains (xs ++ ys) t ≡ (contains xs t || contains ys t)
unfolding contains
contains-append [] ys t = refl
contains-append (x ∷ xs) ys t = ground (arith, contains-append xs ys t)

-- A script is permitted to a loaded token exactly if it is in the token's list or in its pool's, and
-- the rest of the token is as it was.
pub extend-contains :
    (pools : Pools) (token : StaticTokenConfig) (script : Text)
    → (contains (extend pools token).allowed_script_sha256 script ≡ (
        contains token.allowed_script_sha256 script
        || contains (scripts_in (lookup token.pool pools)) script))
      × ((extend pools token).pool ≡ token.pool)
      × ((extend pools token).blocked_commands ≡ token.blocked_commands)
      × ((extend pools token).allowed_commands ≡ token.allowed_commands)
unfolding extend contains
extend-contains pools token script = elim (Option-cases (lookup token.pool pools)) [
  | inl missing ↦ rw (missing, extend) (ground arith, refl, refl, refl)
  | inr ((pool, scripts), there) ↦
      rw (there, extend)
        (contains-append token.allowed_script_sha256 scripts script, refl, refl, refl)
]
