-- ===== src/Auth/Tests.antt =====
-- Authentication at concrete inputs: a library that knows one token, and the theorems about it.
use srh_rs.Base.{
  ℕ, ◌+◌, ◌*◌, remove, ◌<◌, ◌≡◌, refl, Bool, true, false, List, [], ◌∷◌, Option, none, some, Text,
  text, text_eq, Map, lookup, Result, ok, if◌then◌else◌, eq_ignore_ascii_case, is_empty, contains,
  insert, to_ascii_uppercase,
}
use srh_rs.Identity.{Identity, CachedKey, rs256, JwksError, IntrospectError}
use srh_rs.Auth.{Authenticator}
use srh_rs.Auth.Introspection.{CacheEntry, new, get, insert_result, get-eq-some, sweep, second}
use srh_rs.Auth.Remembered.{Operation, looks_up, inserts, sweeps, run, latest, get-latest}
use srh_rs.Auth.Jwt.{Claims, one, JwtConfig, Tokens, identity, authenticate, dots}
use srh_rs.Auth.Soundness.{Verified, Active, authenticate_sound}
use srh_rs.Auth.Bearer.{bearer_of}

abbrev writer : Claims
writer = record {
  sub = text "ada";
  aud = one (text "srh");
  azp = none;
  typ = text "Bearer";
  resource_access = (text "web", text "redis-write" ∷ []) ∷ [];
  srh_pool = none;
  srh_blocked_commands = text "del" ∷ [];
  srh_key_prefix = none;
}

abbrev token : Text
token = text "a.b.c"

-- Knows the one token.
abbrev pub one_token : Tokens
one_token = record {
  Key = Text;
  decode_header = λ bearer. if text_eq bearer token then some (some (text "k1")) else none;
  has_json_header = λ bearer. false;
  from_jwk = λ material. some material;
  decode = λ key algorithm issuer bearer. if text_eq bearer token then some writer else none;
}

abbrev policy : JwtConfig
policy = record {
  issuer = text "issuer";
  audience = text "srh";
  role_prefix = text "redis-";
  client_id = text "web";
}

abbrev pools : Map (List Text)
pools = (text "default", text "cafe" ∷ []) ∷ []

abbrev key_for : Text → Result CachedKey JwksError
key_for kid = ok (record { algorithm = rs256; material = text "key" })

abbrev ask : Option (Text → Result Bool IntrospectError)
ask = some (λ bearer. ok true)

abbrev digest : Text → Text
digest t = t

abbrev ada : Identity
ada = record {
  subject = text "ada";
  bucket_key = text "ada";
  pool = text "default";
  read_only = false;
  is_admin = false;
  legacy = false;
  allowed_commands = none;
  blocked_commands = text "DEL" ∷ [];
  allowed_script_sha256 = text "cafe" ∷ [];
  key_prefix = none;
}

writes : identity policy pools writer ≡ ok ada
unfolding identity contains lookup to_ascii_uppercase
writes = refl

ada_enters :
    (authenticate one_token digest policy pools key_for ask (new 60) token 7).1 ≡ ok (some ada)
unfolding authenticate text_eq get lookup new contains to_ascii_uppercase
ada_enters = refl

authenticate_sound_example :
    (dots token ≡ 2)
    × (claims : Claims) × Verified one_token digest policy pools key_for ask token claims
    × Active one_token digest policy pools key_for ask (new 60) token 7
    × (identity policy pools claims ≡ ok ada)
authenticate_sound_example =
    authenticate_sound one_token digest policy pools key_for ask (new 60) token 7 ada ada_enters

-- One result is replaced by another, with a lookup and a sweep after it.
abbrev worked : List Operation
worked =
    inserts token true 5
    ∷ inserts token false 6
    ∷ looks_up token 7
    ∷ inserts (text "x") true 8
    ∷ sweeps 9
    ∷ []

answers_latest : (get (run (new 60) worked) token 10).1 ≡ some false
unfolding run get insert_result sweep new lookup insert remove
answers_latest = refl

get-latest_example :
    (then_ : ℕ) × (latest token none worked ≡ some (false, then_)) × (10 < then_ + 60 * second)
get-latest_example = get-latest 60 worked token 10 false answers_latest

still_cached : (get (insert_result (new 60) token false 5) token 6).1 ≡ some false
unfolding get insert_result new lookup insert
still_cached = refl

get-eq-some_example :
    (entry : CacheEntry) × (lookup token (insert_result (new 60) token false 5).entries
      ≡ some entry)
    × (entry.active ≡ false)
    × (6 < entry.expires_at)
get-eq-some_example = get-eq-some (insert_result (new 60) token false 5) token 6 false still_cached

abbrev no_one : Authenticator
no_one bearer = ok none

has_bearer : bearer_of (some (text "bearer a.b.c")) ≡ some token
unfolding bearer_of eq_ignore_ascii_case is_empty
has_bearer = refl
