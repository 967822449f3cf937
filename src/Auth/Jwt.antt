-- ===== src/Auth/Jwt.antt =====
-- src/adapters/jwt_auth.rs: the authenticator of access tokens. Decoding a header, reading a key and
-- verifying a token are the `jsonwebtoken` package's, and parameters; so are SHA-256, and the ports
-- for keys and for introspection.
use srh_rs.Base.{
  ℕ, Bool, true, false, not, ◌&&◌, ◌||◌, List, [], ◌∷◌, ◌++◌, Option, none, some, Text, text,
  text_eq, contains, Map, lookup, map, to_ascii_uppercase, Result, ok, err, ◌>>=◌, map_err, ok_or,
  if◌then◌else◌, unwrap_or, ◌==◌, suc,
}
use srh_rs.Identity.{
  Identity, JwtAlgorithm, CachedKey, AuthError, rejected, forbidden, service_unavailable, JwksError,
  not_found, unavailable, IntrospectError,
}
use srh_rs.Auth.Introspection.{IntrospectionCache, get, insert_result}

pub data Audience : Type 0 where
  one : Text → Audience
  many : List Text → Audience
  missing : Audience

unfoldable pub has_audience : Audience → Text → Bool
has_audience (one value) expected = text_eq value expected
has_audience (many values) expected = contains values expected
has_audience missing expected = false

pub record Claims : Type 0 where
  pub sub : Text
  pub aud : Audience
  pub azp : Option Text
  pub typ : Text
  -- The roles of each client.
  pub resource_access : Map (List Text)
  pub srh_pool : Option Text
  pub srh_blocked_commands : List Text
  pub srh_key_prefix : Option Text

pub record JwtConfig : Type 0 where
  pub issuer : Text
  pub audience : Text
  pub role_prefix : Text
  pub client_id : Text

-- The `jsonwebtoken` package, with the leeway, the claims it requires and the issuer as the source
-- sets them: the `kid` of a header that decodes, a key, and the claims of a verified token.
pub record Tokens : Type 1 where
  pub Key : Type 0
  pub decode_header : Text → Option (Option Text)
  pub has_json_header : Text → Bool
  pub from_jwk : Text → Option Key
  pub decode : Key → JwtAlgorithm → Text → Text → Option Claims

unfoldable pub is_authorized : Option Text → Text → Bool
is_authorized none audience = false
is_authorized (some azp) audience = text_eq azp audience

-- The check of the type and the audience.
unfoldable pub is_accepted : JwtConfig → Claims → Bool
unfolding has_audience is_authorized
is_accepted config claims =
    text_eq claims.typ (text "Bearer")
    && (has_audience claims.aud config.audience || is_authorized claims.azp config.audience)

-- The roles of the configured client.
unfoldable pub has_role : JwtConfig → Claims → Text → Bool
has_role config claims name =
    contains (unwrap_or (lookup config.client_id claims.resource_access) [])
      (config.role_prefix ++ name)

-- Whether the identity only reads, and whether it is an administrator.
unfoldable pub rights : JwtConfig → Claims → Result (Bool × Bool) AuthError
unfolding has_role
rights config claims =
    if has_role config claims (text "admin")
    then ok (false, true)
    else if has_role config claims (text "write")
    then ok (false, false)
    else if has_role config claims (text "read")
    then ok (true, false)
    else err (forbidden (text "NOPERM no redis role"))

-- `pools` holds the script digests of each pool.
unfoldable pub identity : JwtConfig → Map (List Text) → Claims → Result Identity AuthError
unfolding rights
identity config pools claims = do
  (read_only, is_admin) ← rights config claims
  allowed_script_sha256 ←
      ok_or (lookup (unwrap_or claims.srh_pool (text "default")) pools)
        (forbidden (text "NOPERM invalid redis pool"))
  ok (record {
    subject = claims.sub;
    bucket_key = claims.sub;
    pool = unwrap_or claims.srh_pool (text "default");
    read_only = read_only;
    is_admin = is_admin;
    legacy = false;
    allowed_commands = none;
    blocked_commands = map to_ascii_uppercase claims.srh_blocked_commands;
    allowed_script_sha256 = allowed_script_sha256;
    key_prefix = claims.srh_key_prefix;
  })

unfoldable pub map_jwks_error : JwksError → AuthError
map_jwks_error not_found = rejected
map_jwks_error (unavailable reason) = service_unavailable reason

unfoldable pub dots : Text → ℕ
dots [] = 0
dots (c ∷ s) = let rest = dots s in if c == 46 then suc rest else rest

module _ (tokens : Tokens) (sha256 : Text → Text) (config : JwtConfig) (pools : Map (List Text))
    (key_for : Text → Result CachedKey JwksError)
    (introspector : Option (Text → Result Bool IntrospectError)) where
  open tokens use {decode_header, from_jwk, decode}

  -- The claims of a token that the named key verifies, of the right type and audience.
  unfoldable pub claims_of : Text → Result Claims AuthError
  unfolding map_jwks_error is_accepted
  claims_of bearer = do
    header ← ok_or (decode_header bearer) rejected
    kid ← ok_or header rejected
    cached ← map_err map_jwks_error (key_for kid)
    key ← ok_or (from_jwk cached.material) rejected
    claims ← ok_or (decode key cached.algorithm config.issuer bearer) rejected
    if is_accepted config claims then ok claims else err rejected

  unfoldable pub asked :
      (Text → Result Bool IntrospectError)
      → Text
      → ℕ
      → IntrospectionCache × Option Bool
      → IntrospectionCache × Result Bool AuthError
  asked is_active bearer now (cache, some active) = (cache, ok active)
  asked is_active bearer now (cache, none) = elim (is_active bearer) [
    | ok active ↦ (insert_result cache (sha256 bearer) active now, ok active)
    | err e ↦ (cache, err (service_unavailable e.message))
  ]

  -- Whether the token is active: as cached, or as the service says, or always without one.
  unfoldable pub is_active :
      IntrospectionCache → Text → ℕ → IntrospectionCache × Result Bool AuthError
  unfolding asked
  is_active cache bearer now = elim introspector [
    | none ↦ (cache, ok true)
    | some ask ↦ asked ask bearer now (get cache (sha256 bearer) now)
  ]

  unfoldable pub conclude :
      Claims
      → IntrospectionCache × Result Bool AuthError
      → IntrospectionCache × Result Identity AuthError
  unfolding identity
  conclude claims (cache, err e) = (cache, err e)
  conclude claims (cache, ok active) =
      (cache, if active then identity config pools claims else err rejected)

  unfoldable pub validate :
      IntrospectionCache → Text → ℕ → IntrospectionCache × Result Identity AuthError
  unfolding claims_of is_active conclude
  validate cache bearer now = elim (claims_of bearer) [
    | err e ↦ (cache, err e)
    | ok claims ↦ conclude claims (is_active cache bearer now)
  ]

  unfoldable pub found :
      IntrospectionCache × Result Identity AuthError
      → IntrospectionCache × Result (Option Identity) AuthError
  found (cache, ok identity) = (cache, ok (some identity))
  found (cache, err e) = (cache, err e)

  unfoldable pub authenticate :
      IntrospectionCache → Text → ℕ → IntrospectionCache × Result (Option Identity) AuthError
  unfolding dots validate found
  authenticate cache bearer now =
      if not (dots bearer == 2) then (cache, ok none) else elim (decode_header bearer) [
        | none ↦ (cache, if tokens.has_json_header bearer then err rejected else ok none)
        | some header ↦ found (validate cache bearer now)
      ]
