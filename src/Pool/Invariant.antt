-- ===== src/Pool/Invariant.antt =====
-- src/adapters/pool_manager.rs: what one move does to the counts of a pool.
use srh_rs.Base.{
  ℕ, zero, suc, ◌+◌, ◌≤◌, ◌≡◌, Bool, true, false, List, [], ◌∷◌, some, length, set, length-set,
  ◌==◌, if◌then◌else◌, arith,
}
use srh_rs.Pool.Entry.{PoolEntry, is_free, nth_client}
use srh_rs.Pool.Task.{
  Phase, waiting, granted, scanning, blocked, leased, used, releasing, Action, goes_on, dropped,
  advance,
}

-- What a task holds, by its phase: a permit, a place in the queue, a place in the gauge, a client.
abbrev pub has_permit : Phase → ℕ
has_permit (granted permit) = 1
has_permit (scanning permit start offset) = 1
has_permit (blocked permit start) = 1
has_permit (leased permit client) = 1
has_permit (used client) = 1
has_permit other = 0

abbrev pub in_queue : Phase → ℕ
in_queue (waiting permit) = 1
in_queue (granted permit) = 1
in_queue other = 0

abbrev pub in_gauge : Phase → ℕ
in_gauge (scanning permit start offset) = 1
in_gauge (blocked permit start) = 1
in_gauge (leased permit client) = 1
in_gauge (used client) = 1
in_gauge other = 0

abbrev pub holds : ℕ → Phase → ℕ
holds k (leased permit client) = if client == k then 1 else 0
holds k (used client) = if client == k then 1 else 0
holds k (releasing client) = if client == k then 1 else 0
holds k other = 0

-- A gauge that was raised for a task and is not lowered when the task ends.
abbrev pub leak : Phase → Action → ℕ
leak (blocked permit start) dropped = 1
leak phase action = 0

module _ (e e' : PoolEntry) (q : Phase) where
  pub advance-permits :
      (p : Phase) (a : Action)
      → advance e p a ≡ some (e', q)
      → (e'.permits + has_permit q ≡ e.permits + has_permit p) × (e'.permit_count ≡ e.permit_count)
  unfolding advance
  advance-permits p a h = ground arith

  pub advance-queue :
      (p : Phase) (a : Action)
      → advance e p a ≡ some (e', q)
      → in_queue p ≤ e.waiters
      → e.waiters ≤ e.max_waiters
      → (e'.waiters + in_queue p ≡ e.waiters + in_queue q)
        × (e'.waiters ≤ e'.max_waiters)
        × (e'.max_waiters ≡ e.max_waiters)
  unfolding advance
  advance-queue p a h held few = ground arith

  pub advance-gauge :
      (p : Phase) (a : Action)
      → advance e p a ≡ some (e', q)
      → e'.permits_in_use.raised + (e.permits_in_use.lowered + in_gauge p)
        ≡ e.permits_in_use.raised + (e'.permits_in_use.lowered + (in_gauge q + leak p a))
  unfolding advance
  advance-gauge p a h = ground arith

unfoldable pub lock_at : List Bool → ℕ → ℕ
lock_at [] k = 0
lock_at (true ∷ held) zero = 1
lock_at (false ∷ held) zero = 0
lock_at (h ∷ held) (suc k) = lock_at held k

set-lock :
    (held : List Bool) (i k : ℕ)
    → is_free held i ≡ true
    → lock_at (set held i true) k ≡ lock_at held k + (if i == k then 1 else 0)
unfolding is_free lock_at
set-lock [] i k h = absurd (ground arith)
set-lock (true ∷ held) zero k h = absurd (ground arith)
set-lock (false ∷ held) zero zero h = ground arith
set-lock (false ∷ held) zero (suc k) h = ground arith
set-lock (x ∷ held) (suc i) zero h = ground arith
set-lock (x ∷ held) (suc i) (suc k) h = ground (arith, set-lock held i k h)

set-unlock :
    (held : List Bool) (i k : ℕ)
    → 1 ≤ lock_at held i
    → lock_at (set held i false) k + (if i == k then 1 else 0) ≡ lock_at held k
unfolding lock_at
set-unlock [] i k h = absurd (ground arith)
set-unlock (false ∷ held) zero k h = absurd (ground arith)
set-unlock (true ∷ held) zero zero h = ground arith
set-unlock (true ∷ held) zero (suc k) h = ground arith
set-unlock (x ∷ held) (suc i) zero h = ground arith
set-unlock (x ∷ held) (suc i) (suc k) h = ground (arith, set-unlock held i k h)

pub lock_at-le-one : (held : List Bool) (k : ℕ) → lock_at held k ≤ 1
unfolding lock_at
lock_at-le-one [] k = omega arith
lock_at-le-one (true ∷ held) zero = omega arith
lock_at-le-one (false ∷ held) zero = omega arith
lock_at-le-one (h ∷ held) (suc k) = lock_at-le-one held k

module _ (e e' : PoolEntry) (q : Phase) where
  pub advance-clients :
      (k : ℕ) (p : Phase) (a : Action)
      → advance e p a ≡ some (e', q)
      → ((c : ℕ) → holds c p ≤ lock_at e.client_leases c)
      → lock_at e'.client_leases k + holds k p ≡ lock_at e.client_leases k + holds k q
  unfolding advance
  advance-clients k (scanning permit start offset) (goes_on now) h held =
      let index = nth_client (length e.client_leases) start offset in
      ground (arith, set-lock e.client_leases index k)
  advance-clients k (blocked permit start) (goes_on now) h held =
      ground (arith, set-lock e.client_leases start k)
  advance-clients k (releasing client) (goes_on now) h held =
      ground (arith, set-unlock e.client_leases client k, held client)
  advance-clients k p a h held = ground arith

  pub advance-size :
      (p : Phase) (a : Action)
      → advance e p a ≡ some (e', q)
      → length e'.client_leases ≡ length e.client_leases
  unfolding advance
  advance-size (scanning permit start offset) (goes_on now) h =
      let index = nth_client (length e.client_leases) start offset in
      ground (arith, length-set e.client_leases index true)
  advance-size (blocked permit start) (goes_on now) h =
      ground (arith, length-set e.client_leases start true)
  advance-size (releasing client) (goes_on now) h =
      ground (arith, length-set e.client_leases client false)
  advance-size p a h = ground arith
