-- ===== src/Config/LoadTests.antt =====
-- The environment of a first deployment, and a file of each format.
use srh_rs.Base.{
  ◌≡◌, true, refl, List, [], ◌∷◌, Option, none, some, Text, text, text_eq, ok, err, All, has_key,
  is_empty, if◌then◌else◌,
}
use srh_rs.Auth.{identities, identity_of, authenticate_static}
use srh_rs.Base.{lookup}
use srh_rs.Config.{Config, PoolConfig}
use srh_rs.Config.Tokens.{default_token}
use srh_rs.Config.Raw.{RawConfig}
use srh_rs.Config.Sound.{Serves, IsSound}
use srh_rs.Config.Load.{Outside, from_environment, is_legacy}
use srh_rs.Config.Started.{from_environment-IsSound, Minimal, env_loads}

-- A document is an object of objects without members of their own.
data Shape : Type 0 where
  leaf : Shape
  connected : Shape

abbrev members : Shape → Option (List (Text × Shape))
members leaf = none
members connected = some ((text "connection_string", leaf) ∷ (text "t", connected) ∷ [])

abbrev blank : RawConfig
blank = record { server = none; jwt = none; static_tokens = []; pools = [] }

abbrev machine : Outside
machine = record {
  Value = Shape;
  read_to_string = λ path. err (text "not found");
  from_str = λ json. ok leaf;
  as_object = members;
  legacy_entries = λ v. ok [];
  raw_config = λ v. ok blank;
  parse_u16 = λ value. err (text "invalid digit");
  parse_usize = λ value. err (text "invalid digit");
  scheme_of = λ url. ok (text "http");
  socket_addr = λ address. ok tt;
  sha256 = λ t. t;
}

abbrev docker : Text → Option Text
docker name =
    if text_eq name (text "SRH_MODE")
    then some (text "env")
    else if text_eq name (text "SRH_TOKEN")
    then some (text "secret")
    else if text_eq name (text "SRH_CONNECTION_STRING")
    then some (text "redis://cache")
    else none

docker-Minimal : Minimal machine docker (text "secret") (text "redis://cache")
unfolding text_eq
docker-Minimal = record {
  mode = refl;
  token_is = refl;
  connects = refl;
  connections = refl;
  bind = refl;
  port = refl;
  ipv6 = refl;
}

env_loads_example :
    (config : Config) × (from_environment machine docker ≡ ok config)
    × (authenticate_static (machine.sha256) (identities config.static_tokens) (text "secret")
        ≡ ok (
            some
              (identity_of (machine.sha256 (text "secret")) (default_token (text "default") true))))
    × (pool : PoolConfig) × (lookup (text "default") config.pools ≡ some pool)
    × (pool.connection_string ≡ text "redis://cache")
unfolding is_empty
env_loads_example =
    env_loads machine docker (text "secret") (text "redis://cache") docker-Minimal refl refl

docker_starts : (config : Config) × (from_environment machine docker ≡ ok config)
unfolding is_empty
docker_starts =
    let found =
      env_loads machine docker (text "secret") (text "redis://cache") docker-Minimal refl refl in
    (found.0, found.1)

from_environment-IsSound_example :
    Serves docker_starts.0.server
    × All (λ t. has_key t.1.pool docker_starts.0.pools ≡ true) docker_starts.0.static_tokens
    × All (λ p. IsSound docker_starts.0.server p.1) docker_starts.0.pools
from_environment-IsSound_example =
    from_environment-IsSound machine docker docker_starts.0 docker_starts.1

knows_old_format : is_legacy machine connected ≡ true
unfolding is_legacy has_key
knows_old_format = refl
