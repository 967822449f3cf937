-- ===== src/Jwks.antt =====
-- src/adapters/http_jwks.rs: the cache of signing keys and its refreshes. What an HTTP request
-- gives, how URLs and documents are read, and how keys are written are parameters. A refresh runs
-- under a lock, and reads the clock under it; times are nanoseconds.
pub mod Forced
pub mod Family
pub mod Signing
mod Tests
use srh_rs.Base.{
  ℕ, ◌+◌, ◌-◌, ◌*◌, ◌≡◌, Bool, true, false, not, ◌&&◌, ◌||◌, List, [], ◌∷◌, ◌++◌, Option, none,
  some, Text, text, text_eq, Result, ok, err, ◌>>=◌, map_err, Map, lookup, insert, any, ltb, ◌==◌,
  if◌then◌else◌,
}
use srh_rs.Identity.{
  CachedKey, JwtAlgorithm, rs256, rs384, rs512, es256, es384, JwksError, not_found, unavailable,
}

abbrev pub discovery_limit : ℕ
discovery_limit = 65536

abbrev pub jwks_limit : ℕ
jwks_limit = 1048576

-- Thirty seconds.
abbrev pub forced_refresh_interval : ℕ
forced_refresh_interval = 30000000000

-- Of `jsonwebtoken`'s key: the parts that are read, and the key as it is written.
pub data PublicKeyUse : Type 0 where
  signature other_use : PublicKeyUse

pub data KeyOperation : Type 0 where
  verify other_operation : KeyOperation

pub data Curve : Type 0 where
  p256 p384 other_curve : Curve

pub data AlgorithmParameters : Type 0 where
  rsa other_parameters : AlgorithmParameters
  elliptic_curve : Curve → AlgorithmParameters

pub data KeyAlgorithm : Type 0 where
  of_jwt : JwtAlgorithm → KeyAlgorithm
  other_algorithm : KeyAlgorithm

pub record Jwk : Type 0 where
  pub public_key_use : Option PublicKeyUse
  pub key_operations : Option (List KeyOperation)
  pub key_id : Option Text
  pub key_algorithm : Option KeyAlgorithm
  pub algorithm : AlgorithmParameters
  pub encoded : Option Text

abbrev pub is_signature : PublicKeyUse → Bool
is_signature signature = true
is_signature other_use = false

abbrev pub is_verify : KeyOperation → Bool
is_verify verify = true
is_verify other_operation = false

-- Whether a key is for something else than checking signatures.
unfoldable pub is_for_others : Jwk → Bool
is_for_others jwk =
    elim jwk.public_key_use [ none ↦ false | some usage ↦ not (is_signature usage) ]
    || elim jwk.key_operations [ none ↦ false | some operations ↦ not (any is_verify operations) ]

unfoldable pub algorithm_of : AlgorithmParameters → Option KeyAlgorithm → Option JwtAlgorithm
algorithm_of rsa none = some rs256
algorithm_of rsa (some (of_jwt rs256)) = some rs256
algorithm_of rsa (some (of_jwt rs384)) = some rs384
algorithm_of rsa (some (of_jwt rs512)) = some rs512
algorithm_of (elliptic_curve p256) none = some es256
algorithm_of (elliptic_curve p384) none = some es384
algorithm_of (elliptic_curve p256) (some (of_jwt es256)) = some es256
algorithm_of (elliptic_curve p384) (some (of_jwt es384)) = some es384
algorithm_of parameters algorithm = none

-- The three `?` of `cacheable_key`.
abbrev pub entry_of : Option Text → Option JwtAlgorithm → Option Text → Option (Text × CachedKey)
entry_of (some kid) (some algorithm) (some material) =
    some (kid, record { algorithm = algorithm; material = material })
entry_of kid algorithm material = none

unfoldable pub cacheable_key : Jwk → Option (Text × CachedKey)
unfolding is_for_others algorithm_of
cacheable_key jwk =
    if is_for_others jwk
    then none
    else entry_of jwk.key_id (algorithm_of jwk.algorithm jwk.key_algorithm) jwk.encoded

-- `filter_map` and `collect` into a map: a later key of an id replaces an earlier one.
unfoldable pub collect_keys : List Jwk → Map CachedKey → Map CachedKey
unfolding insert
collect_keys [] keys = keys
collect_keys (jwk ∷ set) keys =
    collect_keys set
      (elim (cacheable_key jwk) [ none ↦ keys | some (kid, key) ↦ insert kid key keys ])

-- The cache, and how often a refresh has gone through to its requests, which only the theorems read.
pub record KeyCache : Type 0 where
  pub keys : Map CachedKey
  pub fetched_at : Option ℕ
  pub jwks_uri : Option Text
  pub last_forced_refresh : Option ℕ
  pub fetches : ℕ

abbrev pub empty : KeyCache
empty = record {
  keys = [];
  fetched_at = none;
  jwks_uri = none;
  last_forced_refresh = none;
  fetches = 0;
}

-- The outside: the scheme of a URL, or why it is none; what a request for a URL gives within a
-- limit; and how the two documents are read.
pub record Web : Type 0 where
  pub scheme : Text → Result Text Text
  pub request_bytes : Text → ℕ → Result Text Text
  pub read_discovery : Text → Result Text Text
  pub read_set : Text → Result (List Jwk) Text

module _ (issuer : Text) (refresh_after : ℕ) where
  unfoldable pub validate_http_url : Web → Text → Result (Unit {0}) JwksError
  unfolding text_eq
  validate_http_url web value =
      map_err (λ e. unavailable (text "invalid outbound URL: " ++ e)) (web.scheme value)
      >>= λ scheme.
          if text_eq scheme (text "http") || text_eq scheme (text "https")
          then ok tt
          else err (unavailable (text "outbound URL must use http or https"))

  unfoldable pub get : Web → Text → ℕ → Result Text JwksError
  unfolding validate_http_url
  get web url limit =
      validate_http_url web url >>= λ u. map_err unavailable (web.request_bytes url limit)

  -- `trim_end_matches('/')`.
  unfoldable pub trim_end : Text → Text
  trim_end [] = []
  trim_end (a ∷ rest) =
      let rest' = trim_end rest in
      elim rest' [ [] ↦ if a == b'/' then [] else a ∷ [] | b ∷ more ↦ a ∷ b ∷ more ]

  unfoldable pub fetch_discovery : Web → Result Text JwksError
  unfolding get trim_end
  fetch_discovery web =
      get web (trim_end issuer ++ text "/.well-known/openid-configuration") discovery_limit
      >>= λ body.
          map_err (λ e. unavailable (text "invalid OpenID discovery document: " ++ e))
            (web.read_discovery body)
          >>= λ jwks_uri. validate_http_url web jwks_uri >>= λ u. ok jwks_uri

  unfoldable pub fetch_keys : Web → Text → Result (Map CachedKey) JwksError
  unfolding get collect_keys
  fetch_keys web url = get web url jwks_limit >>= λ body.
      map_err (λ e. unavailable (text "invalid JWKS document: " ++ e)) (web.read_set body)
      >>= λ set. ok (collect_keys set [])

  abbrev pub uri_of : Web → Option Text → Result Text JwksError
  uri_of web (some uri) = ok uri
  uri_of web none = fetch_discovery web

  -- The requests of a refresh: where the keys are, and the keys.
  unfoldable pub fetch : Web → KeyCache → Result (Text × Map CachedKey) JwksError
  unfolding fetch_discovery fetch_keys
  fetch web cache =
      uri_of web cache.jwks_uri >>= λ uri. fetch_keys web uri >>= λ keys. ok (uri, keys)

  abbrev pub younger : Option ℕ → ℕ → ℕ → Bool
  younger none age now = false
  younger (some since) age now = ltb (now - since) age

  -- Whether a refresh finds that there is nothing to do.
  unfoldable pub is_recent : Bool → ℕ → KeyCache → Bool
  is_recent true now cache = younger cache.last_forced_refresh forced_refresh_interval now
  is_recent false now cache = younger cache.fetched_at refresh_after now

  -- A forced refresh is noted before its requests.
  abbrev pub noted : Bool → ℕ → KeyCache → KeyCache
  noted true now cache = record cache { last_forced_refresh = some now }
  noted false now cache = cache

  -- A refresh makes its requests.
  abbrev pub fetching : KeyCache → KeyCache
  fetching cache = record cache { fetches = cache.fetches + 1 }

  unfoldable pub stored :
      ℕ
      → KeyCache
      → Result (Text × Map CachedKey) JwksError
      → KeyCache × Result (Unit {0}) JwksError
  stored now cache (ok (uri, keys)) =
      (record cache { keys = keys; fetched_at = some now; jwks_uri = some uri }, ok tt)
  stored now cache (err e) = (cache, err e)

  unfoldable pub refresh : Web → Bool → ℕ → KeyCache → KeyCache × Result (Unit {0}) JwksError
  unfolding is_recent stored
  refresh web forced now cache =
      if is_recent forced now cache
      then (cache, ok tt)
      else (let cache' = noted forced now cache in stored now (fetching cache') (fetch web cache'))

  -- With the clock read once before the lock and once under it.
  unfoldable pub refresh_if_needed : Web → ℕ → ℕ → KeyCache → KeyCache × Result (Unit {0}) JwksError
  unfolding refresh
  refresh_if_needed web now now' cache =
      if younger cache.fetched_at refresh_after now
      then (cache, ok tt)
      else refresh web false now' cache

  unfoldable pub found : Option CachedKey → Result CachedKey JwksError
  found none = err not_found
  found (some key) = ok key

  -- The end of `key_for`, when the key is not in the cache.
  unfoldable pub after_forced :
      Text → KeyCache × Result (Unit {0}) JwksError → KeyCache × Result CachedKey JwksError
  unfolding found lookup
  after_forced kid (cache, err e) = (cache, err e)
  after_forced kid (cache, ok u) = (cache, found (lookup kid cache.keys))

  unfoldable pub in_cache :
      Web
      → ℕ
      → Text
      → KeyCache × Result (Unit {0}) JwksError
      → KeyCache × Result CachedKey JwksError
  unfolding refresh after_forced lookup
  in_cache web now kid (cache, err e) = (cache, err e)
  in_cache web now kid (cache, ok u) = elim (lookup kid cache.keys) [
    | some key ↦ (cache, ok key)
    | none ↦ after_forced kid (refresh web true now cache)
  ]

  -- `key_for`, which no other caller's refresh interrupts. The outside may have changed between the
  -- two refreshes.
  unfoldable pub key_for :
      Web → Web → (now now' now'' : ℕ) → Text → KeyCache → KeyCache × Result CachedKey JwksError
  unfolding refresh_if_needed in_cache
  key_for web web' now now' now'' kid cache =
      in_cache web' now'' kid (refresh_if_needed web now now' cache)
