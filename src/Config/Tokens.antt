-- ===== src/Config/Tokens.antt =====
-- src/config.rs: a configuration of the old format, which maps tokens to connections, and that of the
-- environment. SHA-256 is a parameter; the entries of a `HashMap` come in any order, as a list.
use srh_rs.Base.{
  ℕ, ◌-◌, ◌*◌, ◌≡◌, refl, Bool, true, false, ◌&&◌, List, [], ◌∷◌, ◌++◌, Option, none, some, Text,
  text, text_eq, text_eq_iff, text_eq_refl, is_empty, Map, lookup, insert, lookup-insert, Result,
  ok, err, ◌>>=◌, >>=-eq-ok, min, u64_mod, ◌==◌, All, to_ascii_uppercase, map, if◌then◌else◌, arith,
  Option-cases, inl, inr,
}
use srh_rs.Auth.{StaticTokenConfig}
use srh_rs.Config.{ConfigError, validation, PoolConfig}
use srh_rs.Config.Digest.{digest_prefix}

pub record RawBreakerConfig : Type 0 where
  pub failure_threshold : ℕ
  pub cooldown_ms : ℕ

abbrev pub default_breaker : RawBreakerConfig
default_breaker = record { failure_threshold = 10; cooldown_ms = 2000 }

abbrev pub or_else {ℓ} : {A : Type ℓ} → Option A → A → A
or_else none default = default
or_else (some a) default = a

-- `PoolConfig::new`.
unfoldable pub new_pool :
    Text
    → (max_connections command_timeout_ms acquire_timeout_ms : ℕ) → (max_waiters : Option ℕ)
    → Option RawBreakerConfig
    → PoolConfig
new_pool connection_string max_connections command_timeout_ms acquire_timeout_ms max_waiters
      breaker =
    let chosen = or_else breaker default_breaker in
    record {
      connection_string = connection_string;
      max_connections = max_connections;
      command_timeout_ms = command_timeout_ms;
      acquire_timeout_ms = acquire_timeout_ms;
      max_waiters = or_else max_waiters (min (max_connections * 4) (u64_mod - 1));
      failure_threshold = chosen.failure_threshold;
      cooldown_ms = chosen.cooldown_ms;
    }

unfoldable pub same_legacy_pool : PoolConfig → PoolConfig → Bool
unfolding text_eq
same_legacy_pool left right =
    text_eq left.connection_string right.connection_string
    && left.max_connections == right.max_connections

unfoldable pub default_token : Text → Bool → StaticTokenConfig
default_token pool legacy = record {
  pool = pool;
  read_only = false;
  legacy = legacy;
  allowed_commands = none;
  blocked_commands = [];
  allowed_script_sha256 = [];
  key_prefix = none;
}

unfoldable pub uppercase_set : List Text → List Text
uppercase_set values = map to_ascii_uppercase values

pub record RawLegacyToken : Type 0 where
  pub srh_id : Option Text
  pub connection_string : Text
  pub max_connections : ℕ

abbrev pub Loaded : Type 0
Loaded = Map StaticTokenConfig × Map PoolConfig

module _ (sha256 : Text → Text) where
  -- An `srh_id` that is not empty, or the prefix of the token's digest.
  unfoldable pub pool_name : Text → RawLegacyToken → Text
  unfolding digest_prefix is_empty
  pool_name token entry = elim entry.srh_id [
    | none ↦ digest_prefix (sha256 token)
    | some id ↦ if is_empty id then digest_prefix (sha256 token) else id
  ]

  unfoldable pub legacy_pool : RawLegacyToken → PoolConfig
  unfolding new_pool
  legacy_pool entry = new_pool entry.connection_string entry.max_connections 2000 500 none none

  unfoldable pub place_pool :
      Text → PoolConfig → Map PoolConfig → Result (Map PoolConfig) ConfigError
  unfolding lookup insert same_legacy_pool
  place_pool pool candidate pools = elim (lookup pool pools) [
    | some existing ↦
        if same_legacy_pool existing candidate
        then ok pools
        else err (
            validation
              (text "legacy srh_id '" ++ (pool ++ text "' has conflicting pool definitions")))
    | none ↦ ok (insert pool candidate pools)
  ]

  -- `from_legacy_value`, from the tokens and pools that there are so far.
  unfoldable pub from_legacy : List (Text × RawLegacyToken) → Loaded → Result Loaded ConfigError
  from_legacy [] loaded = ok loaded
  from_legacy ((token, entry) ∷ entries) (tokens, pools) =
      let pool = pool_name token entry in
      place_pool pool (legacy_pool entry) pools >>= λ pools'.
      from_legacy entries (insert (sha256 token) (default_token pool true) tokens, pools')

  -- The pool of an entry is there, with the entry's connection.
  abbrev pub Connects : Map PoolConfig → Text × RawLegacyToken → Type 0
  Connects pools (token, entry) =
      (pool : PoolConfig) × (lookup (pool_name token entry) pools ≡ some pool)
      × (pool.connection_string ≡ entry.connection_string)
      × (pool.max_connections ≡ entry.max_connections)

  place_pool-keeps :
      (name k : Text) (candidate c : PoolConfig) (pools pools' : Map PoolConfig)
      → place_pool name candidate pools ≡ ok pools'
      → lookup k pools ≡ some c
      → lookup k pools' ≡ some c
  unfolding place_pool
  place_pool-keeps name k candidate c pools pools' h there =
      ground (arith, lookup-insert name k candidate pools, text_eq_iff name k)

  place_pool-Connects :
      (token : Text) (entry : RawLegacyToken) (pools pools' : Map PoolConfig)
      → place_pool (pool_name token entry) (legacy_pool entry) pools ≡ ok pools'
      → Connects pools' (token, entry)
  unfolding place_pool same_legacy_pool legacy_pool new_pool
  place_pool-Connects token entry pools pools' h =
      let name = pool_name token entry in
      let candidate = legacy_pool entry in
      elim (Option-cases (lookup name pools)) [
        | inl vacant ↦ (
          candidate,
          ground (arith, lookup-insert name name candidate pools, text_eq_refl name, vacant, h),
          refl,
          refl,
        )
        | inr (existing, there) ↦ (
          existing,
          place_pool-keeps name name candidate existing pools pools' h there,
          ground (arith, text_eq_iff existing.connection_string entry.connection_string, there, h),
          ground (arith, there, h),
        )
      ]

  from_legacy-keeps :
      (entries : List (Text × RawLegacyToken)) (loaded end : Loaded) (k : Text) (c : PoolConfig)
      → from_legacy entries loaded ≡ ok end
      → lookup k loaded.1 ≡ some c
      → lookup k end.1 ≡ some c
  unfolding from_legacy
  from_legacy-keeps [] loaded end k c h there = ground arith
  from_legacy-keeps ((token, entry) ∷ entries) (tokens, pools) end k c h there =
      let name = pool_name token entry in
      let (pools', placed, rest) = >>=-eq-ok (place_pool name (legacy_pool entry) pools) _ h in
      from_legacy-keeps entries _ end k c rest
        (place_pool-keeps name k (legacy_pool entry) c pools pools' placed there)

  -- If a configuration of the old format loads, the pool of every token in it has that token's
  -- connection string and number of connections, whatever other tokens share the pool's name.
  pub from_legacy-Connects :
      (entries : List (Text × RawLegacyToken)) (loaded end : Loaded)
      → from_legacy entries loaded ≡ ok end
      → All (Connects end.1) entries
  unfolding from_legacy
  from_legacy-Connects [] loaded end h = tt
  from_legacy-Connects ((token, entry) ∷ entries) (tokens, pools) end h =
      let name = pool_name token entry in
      let (pools', placed, rest) = >>=-eq-ok (place_pool name (legacy_pool entry) pools) _ h in
      let (pool, there, same, as_many) = place_pool-Connects token entry pools pools' placed in
      (
        (pool, from_legacy-keeps entries _ end name pool rest there, same, as_many),
        from_legacy-Connects entries _ end rest,
      )
