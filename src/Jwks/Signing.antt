-- ===== src/Jwks/Signing.antt =====
-- src/adapters/http_jwks.rs: which keys get into the cache.
use srh_rs.Base.{
  ℕ, ◌≡◌, refl, sym, inl, inr, Bool, true, false, List, [], ◌∷◌, some, Text, Result, ok, err,
  >>=-eq-ok, Map, lookup, insert, lookup-insert, text_eq, text_eq_iff, arith, subst, map_err,
  map_err-eq-ok, Option-cases, Bool-cases, All,
}
use srh_rs.Identity.{CachedKey, JwksError}
use srh_rs.Jwks.{
  Jwk, KeyCache, Web, cacheable_key, collect_keys, get, fetch_keys, jwks_limit, fetch, refresh,
  stored, noted, fetching, refresh_if_needed, key_for, in_cache, after_forced, found, uri_of,
  is_recent, younger,
}
use srh_rs.Jwks.Family.{Signs, cacheable_key-Signs}

nothing_cached : (kid : Text) (key : CachedKey) → lookup kid [] ≡ some key → ⊥
unfolding lookup
nothing_cached kid key h = ground arith

ok_lem : {k k' : Map CachedKey} → ◌≡◌ {A = Result (Map CachedKey) JwksError} (ok k) (ok k') → k ≡ k'
ok_lem e = cc

pair_lem :
    {u u' : Text} {k k' : Map CachedKey}
    → ◌≡◌ {A = Result (Text × Map CachedKey) JwksError} (ok (u, k)) (ok (u', k'))
    → k ≡ k'
pair_lem e = ground arith

some_lem : {k k' : CachedKey} → some k ≡ some k' → k ≡ k'
some_lem e = cc

module _ (P : Jwk → Type 0) where
  -- Every cached key is one of the trusted that signs.
  abbrev pub IsTrusted : Map CachedKey → Type 0
  IsTrusted keys =
      (kid : Text) (key : CachedKey)
      → lookup kid keys ≡ some key
      → (jwk : Jwk) × P jwk × Signs jwk kid key

  insert-IsTrusted :
      (jwk : Jwk) (kid : Text) (key : CachedKey) (keys : Map CachedKey)
      → P jwk
      → Signs jwk kid key
      → IsTrusted keys
      → IsTrusted (insert kid key keys)
  insert-IsTrusted jwk kid key keys p signs trusted kid' key' h =
      elim (Bool-cases (text_eq kid kid')) [
        | inl same ↦
            let is : key ≡ key' = some_lem (ground (arith, lookup-insert kid kid' key keys)) in
            (
              jwk,
              p,
              subst (λ id. Signs jwk id key') ((text_eq_iff kid kid').0 same)
                  (subst (λ k. Signs jwk kid k) is signs),
            )
        | inr other ↦ trusted kid' key' (ground (arith, lookup-insert kid kid' key keys))
      ]

  collect_keys-IsTrusted :
      (set : List Jwk) (keys : Map CachedKey)
      → All P set
      → IsTrusted keys
      → IsTrusted (collect_keys set keys)
  unfolding collect_keys
  collect_keys-IsTrusted [] keys ps trusted = trusted
  collect_keys-IsTrusted (jwk ∷ set) keys (p, ps) trusted =
      elim (Option-cases (cacheable_key jwk)) [
        | inl none_of ↦ rw (none_of, collect_keys) (collect_keys-IsTrusted set keys ps trusted)
        | inr ((kid, key), is) ↦
            rw (is, collect_keys)
              (collect_keys-IsTrusted set (insert kid key keys) ps
                (insert-IsTrusted jwk kid key keys p (cacheable_key-Signs jwk kid key is) trusted))
      ]

module _ (P : Jwk → Type 0) (issuer : Text) (refresh_after : ℕ) where
  -- The documents that the outside gives as key sets hold trusted keys only.
  abbrev pub IsTrustedWeb : Web → Type 0
  IsTrustedWeb web = (body : Text) (set : List Jwk) → web.read_set body ≡ ok set → All P set

  fetch_keys-IsTrusted :
      (web : Web) (url : Text) (keys : Map CachedKey)
      → IsTrustedWeb web
      → fetch_keys issuer refresh_after web url ≡ ok keys
      → IsTrusted P keys
  unfolding fetch_keys
  fetch_keys-IsTrusted web url keys safe h =
      let (body, got, h1) = >>=-eq-ok (get issuer refresh_after web url jwks_limit) _ h in
      let (set, read, h2) = >>=-eq-ok (map_err _ (web.read_set body)) _ h1 in
      let same : collect_keys set [] ≡ keys = ok_lem h2 in
      subst (IsTrusted P) same (
        collect_keys-IsTrusted P set []
          (safe body set (map_err-eq-ok _ (web.read_set body) set read))
          (λ kid key h. absurd (nothing_cached kid key h)))

  fetch-IsTrusted :
      (web : Web) (cache : KeyCache) (uri : Text) (keys : Map CachedKey)
      → IsTrustedWeb web
      → fetch issuer refresh_after web cache ≡ ok (uri, keys)
      → IsTrusted P keys
  unfolding fetch
  fetch-IsTrusted web cache uri keys safe h =
      let (uri', at_uri, h1) = >>=-eq-ok (uri_of issuer refresh_after web cache.jwks_uri) _ h in
      let (keys', got, h2) = >>=-eq-ok (fetch_keys issuer refresh_after web uri') _ h1 in
      let same : keys' ≡ keys = pair_lem h2 in
      subst (IsTrusted P) same (fetch_keys-IsTrusted web uri' keys' safe got)

  stored-IsTrusted :
      (now : ℕ) (cache : KeyCache) (r : Result (Text × Map CachedKey) JwksError)
      → IsTrusted P cache.keys
      → ((uri : Text) (keys : Map CachedKey) → r ≡ ok (uri, keys) → IsTrusted P keys)
      → IsTrusted P (stored issuer refresh_after now cache r).0.keys
  unfolding stored
  stored-IsTrusted now cache (ok (uri, keys)) trusted new_ones = new_ones uri keys refl
  stored-IsTrusted now cache (err e) trusted new_ones = trusted

  noted-keys :
      (forced : Bool) (now : ℕ) (cache : KeyCache)
      → (noted issuer refresh_after forced now cache).keys ≡ cache.keys
  noted-keys true now cache = refl
  noted-keys false now cache = refl

  refresh-IsTrusted :
      (web : Web) (forced : Bool) (now : ℕ) (cache : KeyCache)
      → IsTrustedWeb web
      → IsTrusted P cache.keys
      → IsTrusted P (refresh issuer refresh_after web forced now cache).0.keys
  unfolding refresh
  refresh-IsTrusted web forced now cache safe trusted =
      elim (Bool-cases (is_recent issuer refresh_after forced now cache)) [
        | inl recent ↦ rw (recent, refresh) trusted
        | inr old ↦
            let cache' = noted issuer refresh_after forced now cache in
            rw (old, refresh)
              (stored-IsTrusted now (fetching issuer refresh_after cache')
                (fetch issuer refresh_after web cache')
                (subst (IsTrusted P) (sym (noted-keys forced now cache)) trusted)
                (λ uri keys got. fetch-IsTrusted web cache' uri keys safe got))
      ]

  -- What `key_for` promises of its answer and of the cache that it leaves.
  abbrev Serves : Text → KeyCache × Result CachedKey JwksError → Type 0
  Serves kid (cache, r) =
      IsTrusted P cache.keys
      × ((key : CachedKey) → r ≡ ok key → (jwk : Jwk) × P jwk × Signs jwk kid key)

  after_forced-Serves :
      (kid : Text) (s : KeyCache × Result (Unit {0}) JwksError)
      → IsTrusted P s.0.keys
      → Serves kid (after_forced issuer refresh_after kid s)
  unfolding after_forced found
  after_forced-Serves kid (cache, err e) trusted = (trusted, λ key h. absurd (ground arith))
  after_forced-Serves kid (cache, ok u) trusted = elim (Option-cases (lookup kid cache.keys)) [
    | inl missing ↦ rw (missing, found) (trusted, λ key h. absurd (ground arith))
    | inr (key', is) ↦ (trusted, λ key h. trusted kid key (ground (arith, is, h)))
  ]

  in_cache-Serves :
      (web : Web) (now : ℕ) (kid : Text) (s : KeyCache × Result (Unit {0}) JwksError)
      → IsTrustedWeb web
      → IsTrusted P s.0.keys
      → Serves kid (in_cache issuer refresh_after web now kid s)
  unfolding in_cache
  in_cache-Serves web now kid (cache, err e) safe trusted =
      (trusted, λ key h. absurd (ground arith))
  in_cache-Serves web now kid (cache, ok u) safe trusted =
      elim (Option-cases (lookup kid cache.keys)) [
        | inl missing ↦
            rw (missing, in_cache)
              (after_forced-Serves kid (refresh issuer refresh_after web true now cache)
                (refresh-IsTrusted web true now cache safe trusted))
        | inr (key', is) ↦
            rw (is, in_cache) (trusted, λ key h. trusted kid key (ground (arith, is, h)))
      ]

  key_for-Serves :
      (web web' : Web) (now now' now'' : ℕ) (kid : Text) (cache : KeyCache)
      → IsTrustedWeb web
      → IsTrustedWeb web'
      → IsTrusted P cache.keys
      → Serves kid (key_for issuer refresh_after web web' now now' now'' kid cache)
  unfolding key_for refresh_if_needed
  key_for-Serves web web' now now' now'' kid cache safe safe' trusted =
      in_cache-Serves web' now'' kid (refresh_if_needed issuer refresh_after web now now' cache)
        safe'
        (elim (Bool-cases (younger issuer refresh_after cache.fetched_at refresh_after now)) [
          | inl young ↦ rw (young, refresh_if_needed) trusted
          | inr old ↦
              rw (old, refresh_if_needed) (refresh-IsTrusted web false now' cache safe trusted)
        ])

  -- While the cache and the key sets that are fetched hold trusted keys only, a key that is given
  -- out for an id is a trusted one of that id which is published for signatures, not restricted to
  -- other operations, with an algorithm of its own family.
  pub key_for-Signs :
      (web web' : Web) (now now' now'' : ℕ) (kid : Text) (cache : KeyCache) (key : CachedKey)
      → IsTrustedWeb web
      → IsTrustedWeb web'
      → IsTrusted P cache.keys
      → (key_for issuer refresh_after web web' now now' now'' kid cache).1 ≡ ok key
      → (jwk : Jwk) × P jwk × Signs jwk kid key
  key_for-Signs web web' now now' now'' kid cache key safe safe' trusted h =
      (key_for-Serves web web' now now' now'' kid cache safe safe' trusted).1 key h
