-- ===== src/Auth/Remembered.antt =====
-- src/adapters/jwt_auth.rs: which results the cache of introspection results answers, after any
-- lookups, inserts and sweeps.
use srh_rs.Base.{
  ℕ, ◌+◌, ◌*◌, ◌<◌, ◌≡◌, refl, ap, sym, ◌∙◌, Bool, List, [], ◌∷◌, Option, none, some, Text, text_eq,
  text_eq_iff, lookup, remove, Map, lookup-insert, lookup-remove, length, leb, if◌then◌else◌, arith,
  Option-cases, Bool-cases, inl, inr,
}
use srh_rs.Auth.Introspection.{
  IntrospectionCache, CacheEntry, new, get, insert_result, make_room, enter, forget, forget_all,
  expired, Recent, pop_first, sweep, second, get-eq-some,
}
use srh_rs.Auth.Expiry.{sweep-fresh}

-- The operations of the cache, each with the clock as it reads then.
pub data Operation : Type 0 where
  looks_up : (digest : Text) (now : ℕ) → Operation
  inserts : (digest : Text) (active : Bool) (now : ℕ) → Operation
  sweeps : (now : ℕ) → Operation

unfoldable pub apply : IntrospectionCache → Operation → IntrospectionCache
unfolding get insert_result sweep
apply cache (looks_up digest now) = (get cache digest now).0
apply cache (inserts digest active now) = insert_result cache digest active now
apply cache (sweeps now) = (sweep cache now).0

unfoldable pub run : IntrospectionCache → List Operation → IntrospectionCache
unfolding apply
run cache [] = cache
run cache (o ∷ os) = run (apply cache o) os

-- The result that was put in last for a digest, and when.
abbrev pub renewed : Text → Option (Bool × ℕ) → Operation → Option (Bool × ℕ)
renewed digest last (inserts other active now) =
    if text_eq other digest then some (active, now) else last
renewed digest last (looks_up other now) = last
renewed digest last (sweeps now) = last

unfoldable pub latest : Text → Option (Bool × ℕ) → List Operation → Option (Bool × ℕ)
latest digest last [] = last
latest digest last (o ∷ os) = latest digest (renewed digest last o) os

-- An entry that is there afterwards was there before, with this result and expiry.
Keeps : Text → IntrospectionCache → IntrospectionCache → Type 0
Keeps d c c' =
    (e' : CacheEntry)
    → lookup d c'.entries ≡ some e'
    → (e : CacheEntry) × (lookup d c.entries ≡ some e)
      × (e'.active ≡ e.active)
      × (e'.expires_at ≡ e.expires_at)

forget-Keeps :
    (k : Text) (x : CacheEntry) (c : IntrospectionCache) (d : Text) → Keeps d c (forget k x c)
unfolding Keeps
forget-Keeps k x c d e h = (e, ground (arith, lookup-remove k d c.entries), refl, refl)

pop_first-lookup :
    (c : IntrospectionCache) (lru : List Recent) (d : Text) (e : CacheEntry)
    → c.lru ≡ lru
    → lookup d (pop_first c).entries ≡ some e
    → lookup d c.entries ≡ some e
unfolding pop_first
pop_first-lookup c [] d e is h = ground arith
pop_first-lookup c ((i, o, oldest) ∷ rest) d e is h =
    ground (arith, lookup-remove oldest d c.entries)

make_room-Keeps : (c : IntrospectionCache) (k d : Text) → Keeps d c (make_room c k)
unfolding Keeps make_room
make_room-Keeps c k d e h = elim (Option-cases (lookup k c.entries)) [
  | inr (previous, there) ↦ (e, ground (arith, lookup-remove k d c.entries), refl, refl)
  | inl missing ↦ elim (Bool-cases (leb c.max_entries (length c.entries))) [
    | inl full ↦ (e, pop_first-lookup c c.lru d e refl (ground arith), refl, refl)
    | inr room ↦ (e, ground arith, refl, refl)
  ]
]

-- A lookup moves an entry or takes it out.
get-Keeps : (c : IntrospectionCache) (k : Text) (now : ℕ) (d : Text) → Keeps d c (get c k now).0
unfolding Keeps get enter
get-Keeps c k now d e h = elim (Option-cases (lookup k c.entries)) [
  | inl missing ↦ (e, ground arith, refl, refl)
  | inr (entry, there) ↦ elim (Bool-cases (leb entry.expires_at now)) [
    | inl late ↦ (e, ground (arith, lookup-remove k d c.entries), refl, refl)
    | inr fresh ↦ elim (Bool-cases (text_eq k d)) [
      | inl same ↦
          let placed = record entry { last_access = now; order = c.next_order } in
          let is : placed ≡ e = ground (arith, lookup-insert k d placed (remove k c.entries)) in
          (
            entry,
            ground (arith, text_eq_iff k d),
            ap (λ x. x.active) (sym is),
            ap (λ x. x.expires_at) (sym is),
          )
      | inr other ↦
          let placed = record entry { last_access = now; order = c.next_order } in
          (
            e,
            ground
                (arith, lookup-insert k d placed (remove k c.entries), lookup-remove k d c.entries),
            refl,
            refl,
          )
    ]
  ]
]

sweep-Keeps : (c : IntrospectionCache) (now : ℕ) (d : Text) → Keeps d c (sweep c now).0
unfolding Keeps
sweep-Keeps c now d e h = (e, (sweep-fresh c now d e h).1, refl, refl)

-- The time to live does not change.
forget_all-ttl :
    (gone : Map CacheEntry) (c : IntrospectionCache) → (forget_all gone c).ttl_secs ≡ c.ttl_secs
unfolding forget_all
forget_all-ttl [] c = refl
forget_all-ttl ((k, x) ∷ gone) c = forget_all-ttl gone (forget k x c)

pop_first-ttl :
    (c : IntrospectionCache) (lru : List Recent) → c.lru ≡ lru → (pop_first c).ttl_secs ≡ c.ttl_secs
unfolding pop_first
pop_first-ttl c [] is = ground arith
pop_first-ttl c ((i, o, oldest) ∷ rest) is = ground arith

apply-ttl : (c : IntrospectionCache) (o : Operation) → (apply c o).ttl_secs ≡ c.ttl_secs
unfolding apply get enter insert_result make_room sweep
apply-ttl c (looks_up k now) = ground arith
apply-ttl c (inserts k active now) = ground (arith, pop_first-ttl c c.lru refl)
apply-ttl c (sweeps now) = forget_all-ttl (expired now c.entries) c

-- An entry of a digest holds the result that was put in last, and lives from then.
Backed : ℕ → Text → Option (Bool × ℕ) → IntrospectionCache → Type 0
Backed ttl d last c =
    (c.ttl_secs ≡ ttl)
    × ((e : CacheEntry)
        → lookup d c.entries ≡ some e
        → (then_ : ℕ) × (last ≡ some (e.active, then_)) × (e.expires_at ≡ then_ + ttl * second))

Keeps-Backed :
    (ttl : ℕ) (d : Text) (last : Option (Bool × ℕ)) (c c' : IntrospectionCache)
    → Keeps d c c'
    → c'.ttl_secs ≡ c.ttl_secs
    → Backed ttl d last c
    → Backed ttl d last c'
unfolding Backed Keeps
Keeps-Backed ttl d last c c' keeps same (lives, backed) = (
  same ∙ lives,
  λ e' h'.
      let (e, h, active, expires) = keeps e' h' in
      let (then_, is, at) = backed e h in
      (then_, is ∙ ap (λ b. some (b, then_)) (sym active), expires ∙ at),
)

insert_result-Backed :
    (ttl : ℕ) (d k : Text) (active : Bool) (now : ℕ) (last : Option (Bool × ℕ))
    (c : IntrospectionCache)
    → Backed ttl d last c
    → Backed ttl d (if text_eq k d then some (active, now) else last) (insert_result c k active now)
unfolding Backed Keeps apply insert_result enter
insert_result-Backed ttl d k active now last c (lives, backed) = (
  apply-ttl c (inserts k active now) ∙ lives,
  λ e h.
      let room = make_room c k in
      let placed : CacheEntry = record {
        active = active;
        expires_at = now + c.ttl_secs * second;
        last_access = now;
        order = room.next_order;
      } in
      elim (Bool-cases (text_eq k d)) [
        | inl same ↦
            let is : placed ≡ e = ground (arith, lookup-insert k d placed room.entries) in
            rw same (
              now,
              ap (λ x. some (x.active, now)) is,
              ap (λ x. x.expires_at) (sym is) ∙ ap (λ t. now + t * second) lives,
            )
        | inr other ↦
            let was : lookup d room.entries ≡ some e =
              ground (arith, lookup-insert k d placed room.entries) in
            let (e', h', eq_active, eq_expires) = make_room-Keeps c k d e was in
            let (then_, is, at) = backed e' h' in
            rw other (then_, is ∙ ap (λ b. some (b, then_)) (sym eq_active), eq_expires ∙ at)
      ],
)

apply-Backed :
    (ttl : ℕ) (d : Text) (last : Option (Bool × ℕ)) (c : IntrospectionCache) (o : Operation)
    → Backed ttl d last c
    → Backed ttl d (renewed d last o) (apply c o)
unfolding apply
apply-Backed ttl d last c (looks_up k now) backed =
    Keeps-Backed ttl d last c (get c k now).0 (get-Keeps c k now d) (apply-ttl c (looks_up k now))
      backed
apply-Backed ttl d last c (inserts k active now) backed =
    insert_result-Backed ttl d k active now last c backed
apply-Backed ttl d last c (sweeps now) backed =
    Keeps-Backed ttl d last c (sweep c now).0 (sweep-Keeps c now d) (apply-ttl c (sweeps now))
      backed

run-Backed :
    (ttl : ℕ) (d : Text) (os : List Operation) (last : Option (Bool × ℕ)) (c : IntrospectionCache)
    → Backed ttl d last c
    → Backed ttl d (latest d last os) (run c os)
unfolding run latest
run-Backed ttl d [] last c backed = backed
run-Backed ttl d (o ∷ os) last c backed =
    run-Backed ttl d os (renewed d last o) (apply c o) (apply-Backed ttl d last c o backed)

-- After any operations on a new cache, what a lookup answers is the result that was put in last for
-- its digest, less than the time to live ago.
pub get-latest :
    (ttl : ℕ) (os : List Operation) (digest : Text) (now : ℕ) (active : Bool)
    → (get (run (new ttl) os) digest now).1 ≡ some active
    → (then_ : ℕ) × (latest digest none os ≡ some (active, then_)) × (now < then_ + ttl * second)
unfolding Backed new
get-latest ttl os digest now active h =
    let (e, there, is, fresh) = get-eq-some (run (new ttl) os) digest now active h in
    let (then_, last, at) =
      (run-Backed ttl digest os none (new ttl)
          (refl, λ e none_there. absurd (unfold lookup in ground arith))).1
        e there in
    (then_, last ∙ ap (λ b. some (b, then_)) is, omega (arith, fresh, at))
