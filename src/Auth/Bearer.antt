-- ===== src/Auth/Bearer.antt =====
-- src/http/extractors.rs: the identity of a request, from its `Authorization` header.
use srh_rs.Base.{
  ℕ, true, false, not, ◌||◌, [], ◌∷◌, ◌++◌, Option, none, some, Text, text, eq_ignore_ascii_case,
  is_empty, Result, ok, err, ◌>>=◌, map_err, ok_or, ◌==◌, if◌then◌else◌, ◌≡◌, ap, inl, inr, arith,
  Bool-cases, Option-cases,
}
use srh_rs.Identity.{Identity, AuthError, rejected, forbidden, service_unavailable}
use srh_rs.RateLimit.Floats.{Float}
use srh_rs.RateLimit.{probe, access_at}
use srh_rs.Failure.{AppError, unauthorized, forbids, auth_service_unavailable, rate_limited}
use srh_rs.Auth.{Authenticator}
use srh_rs.Http.Effect.{Server, record_debt_forgiveness}

-- `split_once(' ')`.
unfoldable pub split_once : Text → Option (Text × Text)
split_once [] = none
split_once (c ∷ s) =
    let rest = split_once s in
    if c == 32
    then some ([], s)
    else elim rest [ none ↦ none | some (before, after) ↦ some (c ∷ before, after) ]

-- The credential of a header's value, if it has one that is text.
unfoldable pub bearer_of : Option Text → Option Text
unfolding split_once
bearer_of none = none
bearer_of (some authorization) = elim (split_once authorization) [
  | none ↦ none
  | some (scheme, bearer) ↦
      if not (eq_ignore_ascii_case scheme (text "Bearer")) || is_empty bearer
      then none
      else some bearer
]

unfoldable pub map_auth_error : AuthError → AppError
map_auth_error rejected = unauthorized
map_auth_error (forbidden reason) = forbids reason
map_auth_error (service_unavailable reason) = auth_service_unavailable

-- The identity of the header, and an unauthorized request without one.
unfoldable pub identify : Authenticator → Option Text → Result Identity AppError
unfolding bearer_of map_auth_error
identify authenticate header = do
  bearer ← ok_or (bearer_of header) unauthorized
  found ← map_err map_auth_error (authenticate bearer)
  ok_or found unauthorized

module _ (f : Float) where
  open f use {F}

  unfoldable pub probed : Identity → Server F → ℕ → Server F × Result Identity AppError
  probed identity s now =
      let (l, outcome) = access_at f s.limiter identity.bucket_key probe now in
      (
        record_debt_forgiveness f s l,
        elim outcome [ ok u ↦ ok identity | err e ↦ err (rate_limited e.retry_after_secs) ],
      )

  unfoldable pub from_request_parts :
      Authenticator → Option Text → ℕ → Server F → Server F × Result Identity AppError
  unfolding identify probed
  from_request_parts authenticate header now s = elim (identify authenticate header) [
    | err e ↦ (s, err e)
    | ok identity ↦ probed identity s now
  ]

split_once-append :
    (s before after : Text) → split_once s ≡ some (before, after) → s ≡ before ++ (32 ∷ after)
unfolding split_once
split_once-append [] before after h = absurd (ground arith)
split_once-append (c ∷ s) before after h = elim (Bool-cases (c == 32)) [
  | inl space ↦ ground arith
  | inr other ↦ elim (Option-cases (split_once s)) [
    | inl missing ↦ absurd (ground arith)
    | inr ((before', after'), found) ↦
        let rest = split_once-append s before' after' found in ground (arith, ap (λ t. c ∷ t) rest)
  ]
]

-- A header has a credential only if it is `Bearer`, in any case, a space and the credential, which
-- is not empty.
pub bearer_of-eq-some :
    (header : Option Text) (bearer : Text)
    → bearer_of header ≡ some bearer
    → (scheme : Text) × (header ≡ some (scheme ++ (32 ∷ bearer)))
      × (eq_ignore_ascii_case scheme (text "Bearer") ≡ true)
      × (is_empty bearer ≡ false)
unfolding bearer_of
bearer_of-eq-some none bearer h = absurd (ground arith)
bearer_of-eq-some (some s) bearer h = elim (Option-cases (split_once s)) [
  | inl missing ↦ absurd (ground arith)
  | inr ((scheme, b), found) ↦
      let whole = split_once-append s scheme b found in
      (scheme, ground (arith, ap (λ t. some t) whole), ground arith, ground arith)
]
