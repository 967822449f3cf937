-- ===== src/Start/Tests.antt =====
-- A process with one static token, and a pass of maintenance.
use srh_rs.Base.{
  ◌≡◌, ◌<◌, refl, true, false, ℕ, [], ◌∷◌, none, some, Text, text, lookup, ok, err,
  eq_ignore_ascii_case, is_empty,
}
use srh_rs.Failure.{unauthorized}
use srh_rs.RateLimit
use srh_rs.RateLimit.Whole.{whole_tokens}
use srh_rs.Auth.Bearer.{bearer_of}
use srh_rs.Auth.Introspection.{CacheEntry, insert_result}
use srh_rs.Auth.Introspection
use srh_rs.Config.{Config}
use srh_rs.Config.Raw.{default_server}
use srh_rs.Config.Tokens.{default_token}
use srh_rs.Parse.Tests.{small}
use srh_rs.Pool.Manager.{kept}
use srh_rs.Http.Serve.{pipeline, place_of, failure, serve}
use srh_rs.Http.ServerTests.{ask, limits}
use srh_rs.Http.Tests.{cfg, redis_says, fresh}
use srh_rs.Auth.Tests.{one_token}
use srh_rs.Outbound.Tests.{endpoint}
use srh_rs.Auth.Introspection.{IntrospectionCache}
use srh_rs.Base.{inl}
use srh_rs.Start.{Ports, Process, Kept, start, authenticators, bind_address, maintain}
use srh_rs.Start.Started.{unknown_refused, cached, maintain-keeps}

abbrev digest : Text → Text
digest t = t

abbrev eighty : ℕ → Text
eighty n = text "80"

abbrev ports : Ports
ports = record {
  tokens = one_token;
  web = endpoint;
  open_jwks = λ issuer refresh_secs. err (text "no roots");
}

abbrev empty_cache : IntrospectionCache
empty_cache = Introspection.new 30

abbrev one_user : Config
one_user = record {
  server = default_server;
  jwt = none;
  static_tokens = (text "t", default_token (text "default") false) ∷ [];
  pools = [];
  pool_scripts = [];
}

starts : (p : Process (whole_tokens.F)) × (start whole_tokens digest eighty ports one_user ≡ ok p)
unfolding start authenticators
starts = (_, refl)

unknown_refused_example :
    serve whole_tokens digest small limits cfg
      (starts.0.authenticator empty_cache 5)
      redis_says
      []
      (ask (some (text "Bearer u")))
      5
      6
      fresh
    ≡ (fresh, failure unauthorized)
unfolding bearer_of eq_ignore_ascii_case is_empty lookup place_of
unknown_refused_example =
    unknown_refused whole_tokens digest eighty ports one_user starts.0 small limits cfg redis_says
      [] (ask (some (text "Bearer u"))) pipeline empty_cache (text "u") 5 6 fresh starts.1
      (inl refl) refl refl refl refl refl

abbrev kept_once : Kept (whole_tokens.F)
kept_once = record {
  pools = [];
  limiter = RateLimit.new whole_tokens 5;
  introspected = some (insert_result (Introspection.new 30) (text "d") true 7);
}

maintain-keeps_example :
    ((name : Text)
      → lookup name (maintain whole_tokens kept_once 9 0).pools
        ≡ kept 0 (lookup name kept_once.pools))
    × ((d : Text) (e : CacheEntry)
        → cached d (maintain whole_tokens kept_once 9 0).introspected ≡ some e
        → (9 < e.expires_at) × (cached d kept_once.introspected ≡ some e))
maintain-keeps_example = maintain-keeps whole_tokens kept_once 9 0

listens_on_ipv6 : bind_address (text "::1") (text "80") ≡ text "[::1]:80"
unfolding bind_address
listens_on_ipv6 = refl
