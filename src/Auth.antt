-- ===== src/Auth.antt =====
-- src/adapters/auth_chain.rs and src/adapters/static_auth.rs: authenticators. SHA-256 is a
-- parameter; a digest's bytes are a text.
pub mod Introspection
pub mod Expiry
pub mod Remembered
pub mod Jwt
pub mod Bearer
pub mod Addressed
pub mod Soundness
pub mod Tests
use srh_rs.Base.{
  Bool, true, false, List, [], ◌∷◌, Option, none, some, Text, take, hex_digest, Map, lookup, Result,
  ok, err,
}
use srh_rs.Identity.{Identity, AuthError, rejected}

abbrev pub Authenticator : Type 0
Authenticator = Text → Result (Option Identity) AuthError

-- `AuthChain::authenticate`.
unfoldable pub authenticate_chain : List Authenticator → Authenticator
authenticate_chain [] bearer = err rejected
authenticate_chain (link ∷ links) bearer = elim (link bearer) [
  | ok (some identity) ↦ ok (some identity)
  | ok none ↦ authenticate_chain links bearer
  | err e ↦ err e
]

pub record StaticTokenConfig : Type 0 where
  pub pool : Text
  pub read_only : Bool
  pub legacy : Bool
  pub allowed_commands : Option (List Text)
  pub blocked_commands : List Text
  pub allowed_script_sha256 : List Text
  pub key_prefix : Option Text

unfoldable pub identity_of : Text → StaticTokenConfig → Identity
identity_of digest token = record {
  subject = take 8 (hex_digest digest);
  bucket_key = hex_digest digest;
  pool = token.pool;
  read_only = token.read_only;
  is_admin = false;
  legacy = token.legacy;
  allowed_commands = token.allowed_commands;
  blocked_commands = token.blocked_commands;
  allowed_script_sha256 = token.allowed_script_sha256;
  key_prefix = token.key_prefix;
}

-- `StaticAuth::new`: the identities of the digests.
unfoldable pub identities : Map StaticTokenConfig → Map Identity
unfolding identity_of
identities [] = []
identities ((digest, token) ∷ tokens) = (digest, identity_of digest token) ∷ identities tokens

-- `StaticAuth::authenticate`.
unfoldable pub authenticate_static : (Text → Text) → Map Identity → Authenticator
authenticate_static sha256 ids bearer = ok (lookup (sha256 bearer) ids)
