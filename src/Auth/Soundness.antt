-- ===== src/Auth/Soundness.antt =====
-- src/adapters/jwt_auth.rs: what an identity of a token rests on.
use srh_rs.Base.{
  ℕ, ◌<◌, ◌⊎◌, Bool, true, not, ◌&&◌, ◌||◌, ◌≡◌, inl, inr, List, Option, none, some, Text, text,
  Map, lookup, Result, ok, err, >>=-eq-ok, ok_or, map_err, map_err-eq-ok, sym, ap, ◌∙◌, Bool-cases,
  Option-cases, Result-cases, arith, unwrap_or, ◌==◌,
}
use srh_rs.Identity.{
  Identity, CachedKey, AuthError, rejected, forbidden, JwksError, IntrospectError,
}
use srh_rs.Auth.Introspection.{IntrospectionCache, CacheEntry, get, get-eq-some}
use srh_rs.Auth.Addressed.{AddressedTo, is_accepted-Addressed}
use srh_rs.Auth.Jwt.{
  JwtConfig, Claims, asked, Tokens, has_role, rights, identity, claims_of, is_accepted, is_active,
  validate, authenticate, dots, conclude, found, map_jwks_error,
}

ok_or-eq-ok : {A E : Type 0} (m : Option A) (e : E) (a : A) → ok_or m e ≡ ok a → m ≡ some a
ok_or-eq-ok none e a h = absurd (ground arith)
ok_or-eq-ok (some b) e a h = ground arith

-- The rights that the roles give.
pub record Grants (config : JwtConfig) (claims : Claims) (i : Identity) : Type 0 where
  pub admin : i.is_admin ≡ has_role config claims (text "admin")
  pub read_only :
      i.read_only
      ≡ (not (has_role config claims (text "admin")) && not (has_role config claims (text "write")))
  pub some_role :
      (has_role config claims (text "admin")
        || (has_role config claims (text "write") || has_role config claims (text "read")))
      ≡ true

-- An identity of claims has the rights of its highest role, of which there is one, and is of a pool
-- that exists, whose script digests it has; its bucket is its subject.
pub identity-Grants :
    (config : JwtConfig) (pools : Map (List Text)) (claims : Claims) (i : Identity)
    → identity config pools claims ≡ ok i
    → Grants config claims i
      × (i.pool ≡ unwrap_or claims.srh_pool (text "default"))
      × (lookup i.pool pools ≡ some i.allowed_script_sha256)
      × (i.bucket_key ≡ claims.sub)
unfolding identity rights
identity-Grants config pools claims i h =
    let ((read_only, is_admin), granted, rest) = >>=-eq-ok (rights config claims) _ h in
    let (scripts, stored, made) =
      >>=-eq-ok
        (ok_or (lookup (unwrap_or claims.srh_pool (text "default")) pools)
          (forbidden (text "NOPERM invalid redis pool")))
        _ rest in
    let at =
      ok_or-eq-ok (lookup (unwrap_or claims.srh_pool (text "default")) pools) _ scripts stored in
    (
      record { admin = ground arith; read_only = ground arith; some_role = ground arith },
      ground arith,
      ground arith,
      ground arith,
    )

module _ (tokens : Tokens) (sha256 : Text → Text) (config : JwtConfig) (pools : Map (List Text))
    (key_for : Text → Result CachedKey JwksError)
    (introspector : Option (Text → Result Bool IntrospectError)) where
  -- What an active token rests on: that nobody is asked, a cached answer that has not expired, or the
  -- service's answer.
  pub data Active (cache : IntrospectionCache) (bearer : Text) (now : ℕ) : Type 0 where
    unasked : introspector ≡ none → Active cache bearer now
    remembered :
        (entry : CacheEntry)
        → lookup (sha256 bearer) cache.entries ≡ some entry
        → entry.active ≡ true
        → now < entry.expires_at
        → Active cache bearer now
    told :
        (ask : Text → Result Bool IntrospectError)
        → introspector ≡ some ask
        → ask bearer ≡ ok true
        → Active cache bearer now

  asked-eq-ok :
      (ask : Text → Result Bool IntrospectError) (bearer : Text) (now : ℕ)
      (g : IntrospectionCache × Option Bool)
      → (asked tokens sha256 config pools key_for introspector ask bearer now g).1 ≡ ok true
      → (g.1 ≡ some true) ⊎ (ask bearer ≡ ok true)
  unfolding asked
  asked-eq-ok ask bearer now (cache, some active) h = inl (ground arith)
  asked-eq-ok ask bearer now (cache, none) h = elim (Result-cases (ask bearer)) [
    | inl (active, says) ↦ inr (ground arith)
    | inr (e, fails) ↦ absurd (ground arith)
  ]

  is_active-Active :
      (cache : IntrospectionCache) (bearer : Text) (now : ℕ)
      → (is_active tokens sha256 config pools key_for introspector cache bearer now).1 ≡ ok true
      → Active cache bearer now
  unfolding is_active
  is_active-Active cache bearer now h = elim (Option-cases introspector) [
    | inl nobody ↦ unasked nobody
    | inr (ask, is) ↦
        elim (asked-eq-ok ask bearer now (get cache (sha256 bearer) now) (ground arith)) [
          | inl known ↦
              let (entry, found, active, fresh) =
                get-eq-some cache (sha256 bearer) now true known in
              remembered entry found active fresh
          | inr says ↦ told ask is says
        ]
  ]

  conclude-eq-ok :
      (claims : Claims) (r : IntrospectionCache × Result Bool AuthError) (i : Identity)
      → (conclude tokens sha256 config pools key_for introspector claims r).1 ≡ ok i
      → (r.1 ≡ ok true) × (identity config pools claims ≡ ok i)
  unfolding conclude
  conclude-eq-ok claims (cache, err e) i h = absurd (ground arith)
  conclude-eq-ok claims (cache, ok active) i h = elim (Bool-cases active) [
    | inl t ↦ ground arith
    | inr t ↦ absurd (ground arith)
  ]

  found-eq-ok :
      (r : IntrospectionCache × Result Identity AuthError) (i : Identity)
      → (found tokens sha256 config pools key_for introspector r).1 ≡ ok (some i)
      → r.1 ≡ ok i
  unfolding found
  found-eq-ok (cache, ok j) i h = ground arith
  found-eq-ok (cache, err e) i h = absurd (ground arith)

  validate-eq-ok :
      (cache : IntrospectionCache) (bearer : Text) (now : ℕ) (i : Identity)
      → (validate tokens sha256 config pools key_for introspector cache bearer now).1 ≡ ok i
      → (claims : Claims) × (claims_of tokens sha256 config pools key_for introspector bearer
          ≡ ok claims)
        × ((is_active tokens sha256 config pools key_for introspector cache bearer now).1 ≡ ok true)
        × (identity config pools claims ≡ ok i)
  unfolding validate
  validate-eq-ok cache bearer now i h =
      elim (Result-cases (claims_of tokens sha256 config pools key_for introspector bearer)) [
        | inr (e, bad) ↦ absurd (ground arith)
        | inl (claims, fine) ↦
            let (active, made) =
              conclude-eq-ok claims
                (is_active tokens sha256 config pools key_for introspector cache bearer now) i
                (ground arith) in
            (claims, fine, active, made)
      ]

  -- How the claims of a bearer were verified.
  pub record Verified (bearer : Text) (claims : Claims) : Type 0 where
    pub kid : Text
    pub cached : CachedKey
    pub key : tokens.Key
    pub named : tokens.decode_header bearer ≡ some (some kid)
    pub trusted : key_for kid ≡ ok cached
    pub readable : tokens.from_jwk cached.material ≡ some key
    pub decoded : tokens.decode key cached.algorithm config.issuer bearer ≡ some claims
    pub typ : claims.typ ≡ text "Bearer"
    pub addressed : AddressedTo config.audience claims

  claims_of-Verified :
      (bearer : Text) (claims : Claims)
      → claims_of tokens sha256 config pools key_for introspector bearer ≡ ok claims
      → Verified bearer claims
  unfolding claims_of
  claims_of-Verified bearer claims h =
      let (header, has_header, h1) = >>=-eq-ok (ok_or (tokens.decode_header bearer) rejected) _ h in
      let (kid, has_kid, h2) = >>=-eq-ok (ok_or header rejected) _ h1 in
      let (cached, trusted, h3) = >>=-eq-ok (map_err map_jwks_error (key_for kid)) _ h2 in
      let (key, readable, h4) = >>=-eq-ok (ok_or (tokens.from_jwk cached.material) rejected) _ h3 in
      let (decoded, verified, h5) =
        >>=-eq-ok (ok_or (tokens.decode key cached.algorithm config.issuer bearer) rejected) _ h4 in
      elim (Bool-cases (is_accepted config decoded)) [
        | inr refuses ↦ absurd (ground arith)
        | inl accepts ↦
            let same : decoded ≡ claims = ground arith in
            let (typ, addressed) =
              is_accepted-Addressed config claims (ap (is_accepted config) (sym same) ∙ accepts) in
            record {
              kid = kid;
              cached = cached;
              key = key;
              named =
                  ok_or-eq-ok (tokens.decode_header bearer) rejected header has_header
                  ∙ ap (λ x. some x) (ok_or-eq-ok header rejected kid has_kid);
              trusted = map_err-eq-ok map_jwks_error (key_for kid) cached trusted;
              readable = ok_or-eq-ok (tokens.from_jwk cached.material) rejected key readable;
              decoded =
                  ok_or-eq-ok (tokens.decode key cached.algorithm config.issuer bearer) rejected
                    decoded verified
                  ∙ ap (λ x. some x) same;
              typ = typ;
              addressed = addressed;
            }
      ]

  -- An identity comes only from a bearer with two dots whose claims the named key verifies, of the
  -- type `Bearer` and for the configured audience, and it is the identity of those claims. With
  -- introspection configured, the bearer is also active by a cached result that has not expired or by
  -- the service's answer.
  pub authenticate_sound :
      (cache : IntrospectionCache) (bearer : Text) (now : ℕ) (i : Identity)
      → (authenticate tokens sha256 config pools key_for introspector cache bearer now).1
        ≡ ok (some i)
      → (dots bearer ≡ 2)
        × (claims : Claims) × Verified bearer claims
        × Active cache bearer now
        × (identity config pools claims ≡ ok i)
  unfolding authenticate
  authenticate_sound cache bearer now i h = elim (Bool-cases (dots bearer == 2)) [
    | inr few ↦ absurd (ground arith)
    | inl two ↦ elim (Option-cases (tokens.decode_header bearer)) [
      | inl opaque ↦ absurd (ground arith)
      | inr (header, is) ↦
          let valid =
            found-eq-ok (validate tokens sha256 config pools key_for introspector cache bearer now)
              i (ground arith) in
          let (claims, fine, active, made) = validate-eq-ok cache bearer now i valid in
          (
            ground arith,
            claims,
            claims_of-Verified bearer claims fine,
            is_active-Active cache bearer now active,
            made,
          )
    ]
  ]
