-- ===== src/Jwks/Family.antt =====
-- src/adapters/http_jwks.rs: which published keys are kept for checking signatures.
use srh_rs.Base.{
  ◌≡◌, ◌⊎◌, inl, inr, true, false, any, List, Option, none, some, Text, arith, Option-cases,
}
use srh_rs.Identity.{CachedKey, JwtAlgorithm, rs256, rs384, rs512, es256, es384}
use srh_rs.Jwks.{
  Jwk, signature, other_use, KeyOperation, is_verify, AlgorithmParameters, rsa, KeyAlgorithm,
  of_jwt, other_algorithm, other_parameters, other_curve, elliptic_curve, p256, p384, cacheable_key,
  algorithm_of, is_for_others, entry_of,
}

-- The family of a key that an algorithm needs.
abbrev pub Fits : JwtAlgorithm → AlgorithmParameters → Type 0
Fits rs256 parameters = parameters ≡ rsa
Fits rs384 parameters = parameters ≡ rsa
Fits rs512 parameters = parameters ≡ rsa
Fits es256 parameters = parameters ≡ elliptic_curve p256
Fits es384 parameters = parameters ≡ elliptic_curve p384

-- A published key for signatures, under its id and with an algorithm of its own family.
pub record Signs (jwk : Jwk) (kid : Text) (key : CachedKey) : Type 0 where
  pub id : jwk.key_id ≡ some kid
  pub usage : (jwk.public_key_use ≡ none) ⊎ (jwk.public_key_use ≡ some signature)
  pub operations :
      (operations : List KeyOperation)
      → jwk.key_operations ≡ some operations
      → any is_verify operations ≡ true
  pub family : Fits key.algorithm jwk.algorithm
  pub material : jwk.encoded ≡ some key.material

algorithm_of-Fits :
    (parameters : AlgorithmParameters) (named : Option KeyAlgorithm) (a : JwtAlgorithm)
    → algorithm_of parameters named ≡ some a
    → Fits a parameters
unfolding algorithm_of
algorithm_of-Fits rsa none a h = ground arith
algorithm_of-Fits rsa (some (of_jwt b)) a h = ground arith
algorithm_of-Fits rsa (some other_algorithm) a h = absurd (ground arith)
algorithm_of-Fits other_parameters named a h = absurd (ground arith)
algorithm_of-Fits (elliptic_curve p256) none a h = ground arith
algorithm_of-Fits (elliptic_curve p384) none a h = ground arith
algorithm_of-Fits (elliptic_curve p256) (some (of_jwt b)) a h = ground arith
algorithm_of-Fits (elliptic_curve p384) (some (of_jwt b)) a h = ground arith
algorithm_of-Fits (elliptic_curve p256) (some other_algorithm) a h = absurd (ground arith)
algorithm_of-Fits (elliptic_curve p384) (some other_algorithm) a h = absurd (ground arith)
algorithm_of-Fits (elliptic_curve other_curve) named a h = absurd (ground arith)

entry_of-eq-some :
    (id material : Option Text) (algorithm : Option JwtAlgorithm) (kid : Text) (key : CachedKey)
    → entry_of id algorithm material ≡ some (kid, key)
    → (id ≡ some kid) × (algorithm ≡ some key.algorithm) × (material ≡ some key.material)
entry_of-eq-some id material algorithm kid key h = ground arith

mine_usage :
    (jwk : Jwk)
    → is_for_others jwk ≡ false
    → (jwk.public_key_use ≡ none) ⊎ (jwk.public_key_use ≡ some signature)
unfolding is_for_others
mine_usage jwk h = elim (Option-cases jwk.public_key_use) [
  | inl unsaid ↦ inl unsaid
  | inr (signature, is) ↦ inr is
  | inr (other_use, is) ↦ absurd (ground arith)
]

mine_operations :
    (jwk : Jwk)
    → is_for_others jwk ≡ false
    → (operations : List KeyOperation) → jwk.key_operations ≡ some operations
    → any is_verify operations ≡ true
unfolding is_for_others
mine_operations jwk h operations is = ground arith

-- What is cached of a key set is a key for signatures.
pub cacheable_key-Signs :
    (jwk : Jwk) (kid : Text) (key : CachedKey)
    → cacheable_key jwk ≡ some (kid, key)
    → Signs jwk kid key
unfolding cacheable_key
cacheable_key-Signs jwk kid key h =
    let mine : is_for_others jwk ≡ false = ground arith in
    let (id, algorithm, material) =
      entry_of-eq-some jwk.key_id jwk.encoded (algorithm_of jwk.algorithm jwk.key_algorithm) kid key
        (ground arith) in
    record {
      id = id;
      usage = mine_usage jwk mine;
      operations = mine_operations jwk mine;
      family = algorithm_of-Fits jwk.algorithm jwk.key_algorithm key.algorithm algorithm;
      material = material;
    }
