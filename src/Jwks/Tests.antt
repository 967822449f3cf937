-- ===== src/Jwks/Tests.antt =====
-- src/adapters/http_jwks.rs: a server with one key.
use srh_rs.Base.{◌≡◌, refl, true, List, [], ◌∷◌, none, some, Text, text, ok, err, lookup, arith}
use srh_rs.Identity.{CachedKey, rs256, not_found}
use srh_rs.Jwks.{fetch, cacheable_key, refresh, Jwk, Web, empty, rsa, signature, of_jwt, key_for}
use srh_rs.Jwks.Forced.{Call, forced_asks}
use srh_rs.Jwks.Family.{Signs}
use srh_rs.Jwks.Signing.{IsTrustedWeb, key_for-Signs}

abbrev published : Jwk
published = record {
  public_key_use = some signature;
  key_operations = none;
  key_id = some (text "a");
  key_algorithm = some (of_jwt rs256);
  algorithm = rsa;
  encoded = some (text "{}");
}

abbrev server : Web
server = record {
  scheme = λ url. ok (text "https");
  request_bytes = λ url limit. ok (text "body");
  read_discovery = λ body. ok (text "https://id/keys");
  read_set = λ body. ok (published ∷ []);
}

abbrev issuer : Text
issuer = text "https://id/"

abbrev cached : CachedKey
cached = record { algorithm = rs256; material = text "{}" }

gives : (key_for issuer 600000000000 server server 5 6 7 (text "a") empty).1 ≡ ok cached
unfolding key_for fetch cacheable_key
gives = refl

misses : (key_for issuer 600000000000 server server 5 6 7 (text "b") empty).1 ≡ err not_found
unfolding key_for fetch cacheable_key
misses = refl

abbrev IsPublished : Jwk → Type 0
IsPublished jwk = jwk ≡ published

server-IsTrustedWeb : IsTrustedWeb IsPublished issuer 600000000000 server
server-IsTrustedWeb body [] h = tt
server-IsTrustedWeb body (jwk ∷ set) h = ground arith

key_for-Signs_example : (jwk : Jwk) × IsPublished jwk × Signs jwk (text "a") cached
key_for-Signs_example =
    key_for-Signs IsPublished issuer 600000000000 server server 5 6 7 (text "a") empty cached
      server-IsTrustedWeb server-IsTrustedWeb nothing_cached gives
  where
    nothing_cached :
        (kid : Text) (key : CachedKey)
        → lookup kid empty.keys ≡ some key
        → (jwk : Jwk) × IsPublished jwk × Signs jwk kid key
    nothing_cached kid key h = absurd (unfold lookup in ground arith)

-- Three forced refreshes within a second, and one after forty.
abbrev calls : List Call
calls =
    record { web = server; forced = true; now = 1 }
    ∷ record { web = server; forced = true; now = 2 }
    ∷ record { web = server; forced = true; now = 1000000000 }
    ∷ record { web = server; forced = true; now = 40000000000 }
    ∷ []

two_asked : forced_asks issuer 600000000000 empty calls ≡ 2
unfolding forced_asks refresh fetch
two_asked = refl
