-- ===== src/Auth/Addressed.antt =====
-- src/adapters/jwt_auth.rs: whom a token that is accepted is for.
use srh_rs.Base.{
  refl, text_eq, text_eq_iff, Contains, contains_iff, true, ◌≡◌, inl, inr, List, Option, none, some,
  Text, text, ap, ◌∙◌, Bool-cases, arith,
}
use srh_rs.Auth.Jwt.{
  JwtConfig, Claims, Audience, one, many, missing, has_audience, is_authorized, is_accepted,
}

-- Whom a token is for: the audience alone, or among others, or as the authorized party.
pub data AddressedTo (audience : Text) (claims : Claims) : Type 0 where
  only : claims.aud ≡ one audience → AddressedTo audience claims
  among :
      (values : List Text)
      → claims.aud ≡ many values
      → Contains values audience
      → AddressedTo audience claims
  party : claims.azp ≡ some audience → AddressedTo audience claims

has_audience-Addressed :
    (claims : Claims) (aud : Audience) (audience : Text)
    → claims.aud ≡ aud
    → has_audience aud audience ≡ true
    → AddressedTo audience claims
unfolding has_audience
has_audience-Addressed claims (one value) audience e h =
    only (e ∙ ap (λ v. one v) ((text_eq_iff value audience).0 h))
has_audience-Addressed claims (many values) audience e h =
    among values e ((contains_iff values audience).0 h)
has_audience-Addressed claims missing audience e h = absurd (ground arith)

is_authorized-Addressed :
    (claims : Claims) (azp : Option Text) (audience : Text)
    → claims.azp ≡ azp
    → is_authorized azp audience ≡ true
    → AddressedTo audience claims
unfolding is_authorized
is_authorized-Addressed claims none audience e h = absurd (ground arith)
is_authorized-Addressed claims (some azp) audience e h =
    party (e ∙ ap (λ v. some v) ((text_eq_iff azp audience).0 h))

pub is_accepted-Addressed :
    (config : JwtConfig) (claims : Claims)
    → is_accepted config claims ≡ true
    → (claims.typ ≡ text "Bearer") × AddressedTo config.audience claims
unfolding is_accepted
is_accepted-Addressed config claims h =
    let typed : text_eq claims.typ (text "Bearer") ≡ true = ground arith in
    (
      (text_eq_iff claims.typ (text "Bearer")).0 typed,
      elim (Bool-cases (has_audience claims.aud config.audience)) [
        | inl for_it ↦ has_audience-Addressed claims claims.aud config.audience refl for_it
        | inr other ↦ is_authorized-Addressed claims claims.azp config.audience refl (ground arith)
      ],
    )
