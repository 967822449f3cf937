-- ===== src/Auth/Expiry.antt =====
-- src/adapters/jwt_auth.rs: what the sweep of introspection results leaves.
use srh_rs.Base.{
  ℕ, ◌<◌, ◌≡◌, refl, true, false, [], ◌∷◌, some, Text, text_eq_iff, Map, lookup, has_key,
  lookup-remove, arith, Bool-cases, inl, inr, leb,
}
use srh_rs.Auth.Introspection.{IntrospectionCache, CacheEntry, expired, forget, forget_all, sweep}

-- An entry that is left was there, and was not among those forgotten.
lookup-forget_all :
    (gone : Map CacheEntry) (cache : IntrospectionCache) (d : Text) (e : CacheEntry)
    → lookup d (forget_all gone cache).entries ≡ some e
    → (lookup d cache.entries ≡ some e) × (has_key d gone ≡ false)
unfolding forget_all has_key lookup
lookup-forget_all [] cache d e h = (h, refl)
lookup-forget_all ((k, x) ∷ gone) cache d e h =
    let (kept, other) = lookup-forget_all gone (forget k x cache) d e h in
    ground (arith, lookup-remove k d cache.entries, text_eq_iff k d, kept, other)

-- An entry that has expired is among those to forget.
expired-has_key :
    (now : ℕ) (entries : Map CacheEntry) (d : Text) (e : CacheEntry)
    → lookup d entries ≡ some e
    → leb e.expires_at now ≡ true
    → has_key d (expired now entries) ≡ true
unfolding expired has_key lookup
expired-has_key now [] d e h late = absurd (ground arith)
expired-has_key now ((k, x) ∷ entries) d e h late =
    ground (arith, text_eq_iff k d, expired-has_key now entries d e)

-- After a sweep every introspection result that is left has still time to live.
pub sweep-fresh :
    (cache : IntrospectionCache) (now : ℕ) (d : Text) (e : CacheEntry)
    → lookup d (sweep cache now).0.entries ≡ some e
    → (now < e.expires_at) × (lookup d cache.entries ≡ some e)
unfolding sweep
sweep-fresh cache now d e h =
    let (was, kept) = lookup-forget_all (expired now cache.entries) cache d e h in
    elim (Bool-cases (leb e.expires_at now)) [
      | inl late ↦ absurd (ground (arith, expired-has_key now cache.entries d e was late, kept))
      | inr fresh ↦ (ground arith, was)
    ]
