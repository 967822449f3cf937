-- ===== src/Pool/Reach.antt =====
-- src/adapters/pool_manager.rs: the invariant of a pool and its tasks, kept by every move.
use srh_rs.Base.{
  ℕ, zero, suc, ◌+◌, ◌≤◌, ◌≡◌, refl, sym, ap, ◌∙◌, inl, inr, true, false, List, [], ◌∷◌, ◌++◌, some,
  length, get_elem?, set, total, total-append, total-set, get-le-total, get-set_self, arith,
  Option-cases,
}
use srh_rs.Breaker.{is_half_open, new}
use srh_rs.Config.{PoolConfig}
use srh_rs.Pool.Entry.{PoolEntry, build, replicate}
use srh_rs.Pool.Task.{
  Phase, arrived, Action, System, Move, arrives, acts, advance, step, run, fresh,
}
use srh_rs.Pool.Invariant.{
  has_permit, in_queue, holds, lock_at, advance-permits, advance-queue, advance-clients,
  advance-size,
}
use srh_rs.Pool.Lease.{probes, advance-probes}

pub record IsValid (config : PoolConfig) (s : System) : Type 0 where
  pub count : s.entry.permit_count ≡ config.max_connections
  pub places : s.entry.max_waiters ≡ config.max_waiters
  pub permits : s.entry.permits + total has_permit s.tasks ≡ s.entry.permit_count
  pub queue : s.entry.waiters ≡ total in_queue s.tasks
  pub few : s.entry.waiters ≤ s.entry.max_waiters
  pub size : length s.entry.client_leases ≡ s.entry.permit_count
  pub clients : (k : ℕ) → lock_at s.entry.client_leases k ≡ total (holds k) s.tasks
  pub probe : is_half_open s.entry.breaker.state ≡ true → 1 ≤ total (probes s.entry.breaker) s.tasks

module _ (config : PoolConfig) (s : System) (i : ℕ) (p q : Phase) (a : Action) (e' : PoolEntry)
    (at_i : get_elem? s.tasks i ≡ some p) (turn : advance s.entry p a ≡ some (e', q)) where
  moved : (w : Phase → ℕ) → total w (set s.tasks i q) + w p ≡ total w s.tasks + w q
  moved w = total-set w s.tasks i p q at_i

  turn-probe :
      IsValid config s
      → is_half_open e'.breaker.state ≡ true
      → 1 ≤ total (probes e'.breaker) (set s.tasks i q)
  turn-probe v open' = elim (advance-probes s.entry e' q p a turn open') [
    | inl has ↦ omega (
      arith,
      has,
      get-le-total (probes e'.breaker) (set s.tasks i q) i q (get-set_self s.tasks i p q at_i),
    )
    | inr (same, level) ↦
        let before = v.probe (ap (λ b. is_half_open b.state) (sym same) ∙ open') in
        rw same (omega (arith, before, level, moved (probes s.entry.breaker)))
  ]

  turn-IsValid : IsValid config s → IsValid config (record { entry = e'; tasks = set s.tasks i q })
  turn-IsValid v = record {
    count = (advance-permits s.entry e' q p a turn).1 ∙ v.count;
    places = counts.2 ∙ v.places;
    permits = omega (arith, v.permits, moved has_permit, advance-permits s.entry e' q p a turn);
    queue = omega (arith, v.queue, moved in_queue, counts.0);
    few = counts.1;
    size =
        advance-size s.entry e' q p a turn ∙ v.size ∙ sym (advance-permits s.entry e' q p a turn).1;
    clients = λ k. omega (
      arith,
      v.clients k,
      moved (holds k),
      advance-clients s.entry e' q k p a turn
          (λ c. rw (v.clients c) (get-le-total (holds c) s.tasks i p at_i)),
    );
    probe = turn-probe v;
  }
    where
      counts :
          (e'.waiters + in_queue p ≡ s.entry.waiters + in_queue q)
          × (e'.waiters ≤ e'.max_waiters)
          × (e'.max_waiters ≡ s.entry.max_waiters)
      counts =
          advance-queue s.entry e' q p a turn (rw v.queue (get-le-total in_queue s.tasks i p at_i))
            v.few

arrive-IsValid :
    (config : PoolConfig) (s : System)
    → IsValid config s
    → IsValid config (record s { tasks = s.tasks ++ (arrived ∷ []) })
unfolding total
arrive-IsValid config s v = record {
  count = v.count;
  places = v.places;
  permits = omega (arith, v.permits, total-append has_permit s.tasks (arrived ∷ []));
  queue = omega (arith, v.queue, total-append in_queue s.tasks (arrived ∷ []));
  few = v.few;
  size = v.size;
  clients = λ k. omega (arith, v.clients k, total-append (holds k) s.tasks (arrived ∷ []));
  probe =
      λ h. omega (arith, v.probe h, total-append (probes s.entry.breaker) s.tasks (arrived ∷ []));
}

step-IsValid :
    (config : PoolConfig) (s : System) (m : Move) → IsValid config s → IsValid config (step s m)
unfolding step
step-IsValid config s arrives v = arrive-IsValid config s v
step-IsValid config s (acts i a) v = elim (Option-cases (get_elem? s.tasks i)) [
  | inl nobody ↦ rw nobody v
  | inr (p, at_i) ↦ elim (Option-cases (advance s.entry p a)) [
    | inl stuck ↦ rw (at_i, stuck) v
    | inr ((e', q), turn) ↦ rw (at_i, turn) (turn-IsValid config s i p q a e' at_i turn v)
  ]
]

run-IsValid :
    (config : PoolConfig) (s : System) (ms : List Move)
    → IsValid config s
    → IsValid config (run s ms)
unfolding run
run-IsValid config s [] v = v
run-IsValid config s (m ∷ ms) v = run-IsValid config (step s m) ms (step-IsValid config s m v)

length-replicate : (n : ℕ) → length (replicate n false) ≡ n
unfolding replicate
length-replicate zero = refl
length-replicate (suc n) = ap suc (length-replicate n)

lock_at-replicate : (n k : ℕ) → lock_at (replicate n false) k ≡ 0
unfolding replicate lock_at
lock_at-replicate zero k = refl
lock_at-replicate (suc n) zero = refl
lock_at-replicate (suc n) (suc k) = lock_at-replicate n k

fresh-IsValid : (config : PoolConfig) (now : ℕ) → IsValid config (fresh (build config now))
unfolding build total new
fresh-IsValid config now = record {
  count = refl;
  places = refl;
  permits = omega arith;
  queue = omega arith;
  few = omega arith;
  size = length-replicate config.max_connections;
  clients = lock_at-replicate config.max_connections;
  probe = λ h. absurd (ground arith);
}

-- What is true of a pool after any moves of any tasks on it, from when it is built.
abbrev pub after : PoolConfig → ℕ → List Move → System
after config now ms = run (fresh (build config now)) ms

pub reached :
    (config : PoolConfig) (now : ℕ) (ms : List Move) → IsValid config (after config now ms)
reached config now ms = run-IsValid config (fresh (build config now)) ms (fresh-IsValid config now)
