-- ===== src/Identity.antt =====
-- src/domain/identity.rs: an authenticated identity, trusted keys and authentication failures.
-- A `HashSet` is a list of its elements, of which only membership is read.
use srh_rs.Base.{Bool, List, Option, Text}

pub record Identity : Type 0 where
  pub subject : Text
  pub bucket_key : Text
  pub pool : Text
  pub read_only : Bool
  pub is_admin : Bool
  pub legacy : Bool
  pub allowed_commands : Option (List Text)
  pub blocked_commands : List Text
  pub allowed_script_sha256 : List Text
  pub key_prefix : Option Text

pub data JwtAlgorithm : Type 0 where
  rs256 rs384 rs512 es256 es384 : JwtAlgorithm

pub record CachedKey : Type 0 where
  pub algorithm : JwtAlgorithm
  pub material : Text

pub data AuthError : Type 0 where
  rejected : AuthError
  forbidden : Text → AuthError
  service_unavailable : Text → AuthError

pub data JwksError : Type 0 where
  not_found : JwksError
  unavailable : Text → JwksError

pub record IntrospectError : Type 0 where
  pub message : Text
