-- ===== src/Auth/Introspection.antt =====
-- src/adapters/jwt_auth.rs: the cache of introspection results. Clock readings are in nanoseconds.
use srh_rs.Base.{
  ℕ, ◌+◌, ◌*◌, ◌<◌, ◌≡◌, refl, Bool, true, false, ◌&&◌, ◌||◌, List, [], ◌∷◌, Option, none, some,
  Text, text_eq, text_eq_refl, Map, lookup, insert, remove, lookup-insert, length, leb, ltb, ◌==◌,
  if◌then◌else◌, wrapping_add, arith, Option-cases, Bool-cases, inl, inr,
}

abbrev pub max_introspection_entries : ℕ
max_introspection_entries = 100000

pub record CacheEntry : Type 0 where
  pub active : Bool
  pub expires_at : ℕ
  pub last_access : ℕ
  pub order : ℕ

-- A member of the recency set: an instant, an order and a digest, compared in this order.
abbrev pub Recent : Type 0
Recent = ℕ × ℕ × Text

unfoldable pub text_before : Text → Text → Bool
text_before [] [] = false
text_before [] (c ∷ t) = true
text_before (b ∷ s) [] = false
text_before (b ∷ s) (c ∷ t) = ltb b c || b == c && text_before s t

unfoldable pub before : Recent → Recent → Bool
unfolding text_before
before (i, o, d) (i', o', d') = ltb i i' || i == i' && (ltb o o' || o == o' && text_before d d')

abbrev same_recent : Recent → Recent → Bool
same_recent (i, o, d) (i', o', d') = i == i' && (o == o' && text_eq d d')

-- `BTreeSet::insert` and `remove`, of a list in the set's order.
unfoldable pub add : Recent → List Recent → List Recent
unfolding before
add r [] = r ∷ []
add r (q ∷ qs) =
    let rest = add r qs in
    if before r q then r ∷ q ∷ qs else if before q r then q ∷ rest else q ∷ qs

unfoldable pub drop : Recent → List Recent → List Recent
drop r [] = []
drop r (q ∷ qs) = let rest = drop r qs in if same_recent r q then qs else q ∷ rest

pub record IntrospectionCache : Type 0 where
  pub ttl_secs : ℕ
  pub max_entries : ℕ
  pub entries : Map CacheEntry
  pub lru : List Recent
  pub next_order : ℕ

unfoldable pub new : ℕ → IntrospectionCache
new ttl_secs = record {
  ttl_secs = ttl_secs;
  max_entries = max_introspection_entries;
  entries = [];
  lru = [];
  next_order = 0;
}

abbrev pub second : ℕ
second = 1000000000

abbrev pub recent_of : Text → CacheEntry → Recent
recent_of digest entry = (entry.last_access, entry.order, digest)

-- An entry leaves, and its place in the recency set.
abbrev pub forget : Text → CacheEntry → IntrospectionCache → IntrospectionCache
forget digest entry cache = record cache {
  entries = remove digest cache.entries;
  lru = drop (recent_of digest entry) cache.lru;
}

-- An entry takes the newest place.
unfoldable pub enter : Text → CacheEntry → ℕ → IntrospectionCache → IntrospectionCache
unfolding add
enter digest entry now cache =
    let placed = record entry { last_access = now; order = cache.next_order } in
    record cache {
      entries = insert digest placed cache.entries;
      lru = add (recent_of digest placed) cache.lru;
      next_order = wrapping_add cache.next_order 1;
    }

unfoldable pub get : IntrospectionCache → Text → ℕ → IntrospectionCache × Option Bool
unfolding enter drop
get cache digest now = elim (lookup digest cache.entries) [
  | none ↦ (cache, none)
  | some entry ↦
      if leb entry.expires_at now
      then (forget digest entry cache, none)
      else (enter digest entry now (forget digest entry cache), some entry.active)
]

unfoldable pub pop_first : IntrospectionCache → IntrospectionCache
pop_first cache = elim cache.lru [
  | [] ↦ cache
  | (i, o, oldest) ∷ rest ↦ record cache { entries = remove oldest cache.entries; lru = rest }
]

-- What `insert` takes out before the new entry.
unfoldable pub make_room : IntrospectionCache → Text → IntrospectionCache
unfolding pop_first drop
make_room cache digest = elim (lookup digest cache.entries) [
  | some previous ↦ forget digest previous cache
  | none ↦ if leb cache.max_entries (length cache.entries) then pop_first cache else cache
]

unfoldable pub insert_result : IntrospectionCache → Text → Bool → ℕ → IntrospectionCache
unfolding make_room enter
insert_result cache digest active now =
    enter digest
      (record {
        active = active;
        expires_at = now + cache.ttl_secs * second;
        last_access = now;
        order = 0;
      })
      now (make_room cache digest)

unfoldable pub expired : ℕ → Map CacheEntry → Map CacheEntry
expired now [] = []
expired now ((digest, entry) ∷ entries) =
    let rest = expired now entries in
    if leb entry.expires_at now then (digest, entry) ∷ rest else rest

unfoldable pub forget_all : Map CacheEntry → IntrospectionCache → IntrospectionCache
unfolding drop
forget_all [] cache = cache
forget_all ((digest, entry) ∷ entries) cache = forget_all entries (forget digest entry cache)

unfoldable pub sweep : IntrospectionCache → ℕ → IntrospectionCache × ℕ
unfolding expired forget_all
sweep cache now = let gone = expired now cache.entries in (forget_all gone cache, length gone)

get-enter :
    (cache : IntrospectionCache) (digest : Text) (entry : CacheEntry) (then_ now : ℕ)
    → (get (enter digest entry then_ cache) digest now).1
      ≡ (if leb entry.expires_at now then none else some entry.active)
unfolding get enter
get-enter cache digest entry then_ now =
    let placed = record entry { last_access = then_; order = cache.next_order } in
    let found : lookup digest (insert digest placed cache.entries) ≡ some placed =
      ground (arith, lookup-insert digest digest placed cache.entries, text_eq_refl digest) in
    rw (found, get)
      (elim (Bool-cases (leb entry.expires_at now)) [
        | inl late ↦ rw late refl
        | inr fresh ↦ rw fresh refl
      ])

-- A result put into the cache is answered until its time to live is over, and not afterwards,
-- however full the cache was.
pub get-insert_result :
    (cache : IntrospectionCache) (digest : Text) (active : Bool) (then_ now : ℕ)
    → (get (insert_result cache digest active then_) digest now).1
      ≡ (if leb (then_ + cache.ttl_secs * second) now then none else some active)
unfolding insert_result
get-insert_result cache digest active then_ now =
    get-enter (make_room cache digest) digest
      (record {
        active = active;
        expires_at = then_ + cache.ttl_secs * second;
        last_access = then_;
        order = 0;
      })
      then_ now

-- A cached answer is that of the entry, which has not expired.
pub get-eq-some :
    (cache : IntrospectionCache) (digest : Text) (now : ℕ) (active : Bool)
    → (get cache digest now).1 ≡ some active
    → (entry : CacheEntry) × (lookup digest cache.entries ≡ some entry)
      × (entry.active ≡ active)
      × (now < entry.expires_at)
unfolding get
get-eq-some cache digest now active h = elim (Option-cases (lookup digest cache.entries)) [
  | inl missing ↦ absurd (ground arith)
  | inr (entry, found) ↦ (entry, found, ground arith, ground arith)
]
