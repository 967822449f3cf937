-- ===== src/Pool/Gauge.antt =====
-- src/adapters/pool_manager.rs: how the gauge of permits in use drifts, and until when.
use srh_rs.Base.{
  ◌<◌, ◌-◌, ap, ◌∙◌, refl, all, true, Text, Map, lookup, ℕ, ◌+◌, ◌≡◌, inl, inr, List, [], ◌∷◌,
  Option, none, some, get_elem?, set, total, total-append, total-set, arith, Option-cases,
}
use srh_rs.Config.{PoolConfig}
use srh_rs.Pool.Entry.{PoolEntry, build, is_idle}
use srh_rs.Pool.Manager.{evict_idle, reset_gauge, no_permits, kept, lookup-evict_idle}
use srh_rs.Pool.Safety.{is_ended, all_returned}
use srh_rs.Pool.Task.{
  Phase, arrived, Action, System, Move, arrives, acts, advance, step, run, fresh,
}
use srh_rs.Pool.Invariant.{in_gauge, leak, advance-gauge}
use srh_rs.Pool.Reach.{after, reached}

leak_at : Action → Option Phase → ℕ
leak_at a none = 0
leak_at a (some p) = leak p a

leak_of : System → Move → ℕ
unfolding leak_at
leak_of s arrives = 0
leak_of s (acts i a) = leak_at a (get_elem? s.tasks i)

-- How many moves of a list drop a task that waits for a client.
unfoldable pub drift : System → List Move → ℕ
unfolding leak_of
drift s [] = 0
drift s (m ∷ ms) = leak_of s m + drift (step s m) ms

-- The gauge fits its tasks but for a drift.
abbrev Fits : System → ℕ → Type 0
Fits s n =
    s.entry.permits_in_use.raised ≡ s.entry.permits_in_use.lowered + total in_gauge s.tasks + n

leak-turn :
    (s : System) (i n : ℕ) (a : Action) (p q : Phase) (e' : PoolEntry)
    → get_elem? s.tasks i ≡ some p
    → advance s.entry p a ≡ some (e', q)
    → Fits s n
    → Fits (record { entry = e'; tasks = set s.tasks i q }) (leak p a + n)
leak-turn s i n a p q e' at_i turn fits =
    omega (arith, fits, total-set in_gauge s.tasks i p q at_i, advance-gauge s.entry e' q p a turn)

stuck-leak : (e : PoolEntry) (p : Phase) (a : Action) → advance e p a ≡ none → leak p a ≡ 0
unfolding advance
stuck-leak e p a h = ground arith

step-Fits : (s : System) (m : Move) (n : ℕ) → Fits s n → Fits (step s m) (leak_of s m + n)
unfolding step leak_of
step-Fits s arrives n fits =
    unfold total in omega (arith, fits, total-append in_gauge s.tasks (arrived ∷ []))
step-Fits s (acts i a) n fits = elim (Option-cases (get_elem? s.tasks i)) [
  | inl nobody ↦ rw nobody (omega (arith, fits))
  | inr (p, at_i) ↦ elim (Option-cases (advance s.entry p a)) [
    | inl stuck ↦ rw (at_i, stuck, stuck-leak s.entry p a stuck) (omega (arith, fits))
    | inr ((e', q), turn) ↦ rw (at_i, turn) (leak-turn s i n a p q e' at_i turn fits)
  ]
]

run-Fits : (s : System) (ms : List Move) (n : ℕ) → Fits s n → Fits (run s ms) (drift s ms + n)
unfolding run drift
run-Fits s [] n fits = omega (arith, fits)
run-Fits s (m ∷ ms) n fits =
    omega (arith, run-Fits (step s m) ms (leak_of s m + n) (step-Fits s m n fits))

fresh-Fits : (config : PoolConfig) (now : ℕ) → Fits (fresh (build config now)) 0
unfolding build total
fresh-Fits config now = omega arith

-- On a pool that has not been evicted since it was built, the gauge of permits in use is above the
-- tasks that count in it by one for each task that was dropped while it waited for a client.
pub gauge_drifts :
    (config : PoolConfig) (now : ℕ) (ms : List Move)
    → (after config now ms).entry.permits_in_use.raised
      ≡ (after config now ms).entry.permits_in_use.lowered
        + total in_gauge (after config now ms).tasks
        + drift (fresh (build config now)) ms
gauge_drifts config now ms =
    omega (arith, run-Fits (fresh (build config now)) ms 0 (fresh-Fits config now))

-- The drift lasts until the pool is evicted: once all its tasks have ended and it has been unused for
-- more than the retention time, `evict_idle` removes it and sets its gauge to zero.
pub evict_idle-gauge :
    (config : PoolConfig) (now : ℕ) (ms : List Move) (pools : Map PoolEntry) (name : Text)
    (later : ℕ)
    → all is_ended (after config now ms).tasks ≡ true
    → 900 < later - (after config now ms).entry.last_used
    → lookup name pools ≡ some (after config now ms).entry
    → (lookup name (evict_idle pools later).0 ≡ none)
      × (reset_gauge pools later name (after config now ms).entry.permits_in_use ≡ no_permits)
unfolding reset_gauge
evict_idle-gauge config now ms pools name later done old there =
    let e = (after config now ms).entry in
    let (full, quiet, free, closed) = all_returned config now ms done in
    let v = reached config now ms in
    let idle : is_idle e later ≡ true =
      unfold is_idle in ground (arith, full, quiet, v.count, old) in
    (
      lookup-evict_idle later pools name ∙ (ap (kept later) there ∙ rw idle refl),
      rw (there, reset_gauge) (rw idle refl),
    )
