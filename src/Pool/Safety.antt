-- ===== src/Pool/Safety.antt =====
-- src/adapters/pool_manager.rs: what holds of a pool in every order of its tasks' moves.
use srh_rs.Base.{
  ℕ, ◌+◌, ◌-◌, ◌≤◌, ◌<◌, ◌≡◌, refl, ◌∙◌, ◌≢◌, all, inl, inr, Bool, true, false, List, [], ◌∷◌,
  Option, some, get_elem?, total, two-le-total, total-find, arith,
}
use srh_rs.Breaker.{is_half_open}
use srh_rs.Resp.{AcquireError}
use srh_rs.Config.{PoolConfig}
use srh_rs.Pool.Entry.{PoolEntry, is_idle}
use srh_rs.Pool.Task.{Phase, ended, Move}
use srh_rs.Pool.Invariant.{has_permit, in_queue, holds, lock_at, lock_at-le-one}
use srh_rs.Pool.Lease.{probes}
use srh_rs.Pool.Reach.{after, reached}

abbrev pub is_ended : Phase → Bool
is_ended (ended outcome) = true
is_ended other = false

total-ended :
    (w : Phase → ℕ)
    → ((o : Option AcquireError) → w (ended o) ≡ 0)
    → (ps : List Phase) → all is_ended ps ≡ true
    → total w ps ≡ 0
unfolding total
total-ended w none_of [] h = refl
total-ended w none_of (ended o ∷ ps) h = omega (arith, none_of o, total-ended w none_of ps h)
total-ended w none_of (p ∷ ps) h = absurd (ground arith)

idle_parts :
    (e : PoolEntry) (later : ℕ)
    → is_idle e later ≡ true
    → (900 < later - e.last_used) × (e.permits ≡ e.permit_count) × (e.waiters ≡ 0)
unfolding is_idle
idle_parts e later h = ground arith

module _ (config : PoolConfig) (now : ℕ) (ms : List Move) where
  -- However the tasks on a pool interleave and whichever are dropped or run out of time, the permits
  -- that are available and those that tasks hold are as many as the connections, and the counter of
  -- waiters is the number of tasks in the queue, which is not above its limit.
  pub permits_conserved :
      let s = after config now ms in
      (s.entry.permits + total has_permit s.tasks ≡ config.max_connections)
      × (s.entry.waiters ≡ total in_queue s.tasks)
      × (total in_queue s.tasks ≤ config.max_waiters)
  permits_conserved =
      let v = reached config now ms in
      (v.permits ∙ v.count, v.queue, omega (arith, v.queue, v.few, v.places))

  -- No two tasks on a pool hold the lease of one client at a time.
  pub clients_exclusive :
      (i j k : ℕ) (p q : Phase)
      → get_elem? (after config now ms).tasks i ≡ some p
      → get_elem? (after config now ms).tasks j ≡ some q
      → holds k p ≡ 1
      → holds k q ≡ 1
      → i ≡ j
  clients_exclusive i j k p q at_i at_j mine yours =
      let v = reached config now ms in
      elim (two-le-total (holds k) (after config now ms).tasks i j p q at_i at_j) [
        | inl same ↦ same
        | inr both ↦ absurd (
            omega (
              arith,
              both,
              mine,
              yours,
              v.clients k,
              lock_at-le-one (after config now ms).entry.client_leases k,
            ))
      ]

  -- While a pool's breaker is half open, some task that has not ended has the permit whose outcome,
  -- or whose return, takes the breaker out of that state.
  pub probe_held :
      is_half_open (after config now ms).entry.breaker.state ≡ true
      → (i : ℕ) × (p : Phase) × (get_elem? (after config now ms).tasks i ≡ some p)
        × (1 ≤ probes (after config now ms).entry.breaker p)
  probe_held open' =
      total-find (probes (after config now ms).entry.breaker) (after config now ms).tasks
        ((reached config now ms).probe open')

  -- Once all tasks have ended, each in whatever way, all permits are available, no waiter is
  -- counted, every client is free and the breaker is not half open.
  pub all_returned :
      all is_ended (after config now ms).tasks ≡ true
      → ((after config now ms).entry.permits ≡ config.max_connections)
        × ((after config now ms).entry.waiters ≡ 0)
        × ((k : ℕ) → lock_at (after config now ms).entry.client_leases k ≡ 0)
        × (is_half_open (after config now ms).entry.breaker.state ≢ true)
  all_returned done =
      let s = after config now ms in
      let v = reached config now ms in
      (
        omega (arith, v.permits, v.count, total-ended has_permit (λ o. refl) s.tasks done),
        omega (arith, v.queue, total-ended in_queue (λ o. refl) s.tasks done),
        λ k. v.clients k ∙ total-ended (holds k) (λ o. refl) s.tasks done,
        λ open'. absurd (
            omega (
              arith,
              v.probe open',
              total-ended (probes s.entry.breaker) (λ o. refl) s.tasks done,
            )),
      )

  -- A pool that is evicted as idle has been unused for more than the retention time, and no task
  -- has a permit of it or a place in its queue.
  pub is_idle-unused :
      (later : ℕ)
      → is_idle (after config now ms).entry later ≡ true
      → (900 < later - (after config now ms).entry.last_used)
        × (total has_permit (after config now ms).tasks ≡ 0)
        × (total in_queue (after config now ms).tasks ≡ 0)
  unfolding is_idle
  is_idle-unused later idle =
      let s = after config now ms in
      let v = reached config now ms in
      let (old, full, quiet) = idle_parts s.entry later idle in
      (old, omega (arith, v.permits, full), omega (arith, v.queue, quiet))
