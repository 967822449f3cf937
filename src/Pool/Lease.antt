-- ===== src/Pool/Lease.antt =====
-- src/adapters/pool_manager.rs: what one move does to the breaker of a pool.
use srh_rs.Base.{
  ℕ, ◌≤◌, ◌≡◌, sym, subst, ◌⊎◌, inl, inr, Bool, true, false, some, if◌then◌else◌, arith, Bool-cases,
}
use srh_rs.Breaker.{Breaker, BreakerPermit, admit, cancel, record_outcome, is_half_open}
use srh_rs.Breaker.Probe.{is_live}
use srh_rs.Breaker.Executor.{
  Use, release, release_reports, executed, pipelined, transacted, abandoned, fails, is_abandoned,
  drop, wrap,
}
use srh_rs.Pool.Entry.{PoolEntry, announce, restart_connection_task}
use srh_rs.Pool.Task.{
  Phase, arrived, admitted, waiting, granted, scanning, blocked, leased, Action, goes_on, dropped,
  times_out, uses, advance,
}

-- Whether a task has the permit whose outcome decides the half-open state.
abbrev pub probes : Breaker → Phase → ℕ
probes b (admitted permit) = if is_live b permit then 1 else 0
probes b (waiting permit) = if is_live b permit then 1 else 0
probes b (granted permit) = if is_live b permit then 1 else 0
probes b (scanning permit start offset) = if is_live b permit then 1 else 0
probes b (blocked permit start) = if is_live b permit then 1 else 0
probes b (leased permit client) = if is_live b permit then 1 else 0
probes b other = 0

-- What a permit is given back leaves half open it leaves alone, and it is not the probe's.
abbrev Spares : Breaker → BreakerPermit → Breaker → Type 0
Spares b permit b' = is_half_open b'.state ≡ true → (b' ≡ b) × (is_live b permit ≡ false)

cancel-Spares : (b : Breaker) (permit : BreakerPermit) → Spares b permit (cancel b permit)
unfolding cancel
cancel-Spares b permit h = ground arith

record_outcome-Spares :
    (b : Breaker) (permit : BreakerPermit) (failed : Bool) (now : ℕ)
    → Spares b permit (record_outcome b permit failed now).0
unfolding record_outcome
record_outcome-Spares b permit true now h = ground arith
record_outcome-Spares b permit false now h = ground arith

given_up :
    (b : Breaker) (permit : BreakerPermit) (use' : Use)
    → is_abandoned use' ≡ true
    → Spares b permit (release permit b use')
unfolding release drop wrap
given_up b permit abandoned gone = cancel-Spares b permit
given_up b permit (executed result now) gone = absurd (ground arith)
given_up b permit (pipelined results now) gone = absurd (ground arith)
given_up b permit (transacted result now) gone = absurd (ground arith)

release-Spares :
    (b : Breaker) (permit : BreakerPermit) (use' : Use) → Spares b permit (release permit b use')
release-Spares b permit use' h = elim (Bool-cases (is_abandoned use')) [
  | inl gone ↦ given_up b permit use' gone h
  | inr kept ↦
      let (now, same) = release_reports permit b use' kept in
      subst (Spares b permit) (sym same) (record_outcome-Spares b permit (fails use') now) h
]

module _ (e e' : PoolEntry) (q : Phase) where
  admit-probes :
      (now : ℕ)
      → advance e arrived (goes_on now) ≡ some (e', q)
      → is_half_open e'.breaker.state ≡ true
      → (1 ≤ probes e'.breaker q) ⊎ ((e'.breaker ≡ e.breaker) × (probes e.breaker q ≡ 0))
  unfolding advance admit announce restart_connection_task
  admit-probes now h open' = ground arith

  -- If the breaker is half open after a move, the task that moved has the probe, or the breaker is
  -- as before and the task has what it had.
  pub advance-probes :
      (p : Phase) (a : Action)
      → advance e p a ≡ some (e', q)
      → is_half_open e'.breaker.state ≡ true
      → (1 ≤ probes e'.breaker q)
        ⊎ ((e'.breaker ≡ e.breaker) × (probes e.breaker q ≡ probes e.breaker p))
  unfolding advance
  advance-probes arrived (goes_on now) h open' = admit-probes now h open'
  advance-probes (admitted permit) (goes_on now) h open' =
      ground (arith, cancel-Spares e.breaker permit)
  advance-probes (waiting permit) dropped h open' = ground (arith, cancel-Spares e.breaker permit)
  advance-probes (waiting permit) times_out h open' = ground (arith, cancel-Spares e.breaker permit)
  advance-probes (blocked permit start) dropped h open' =
      ground (arith, cancel-Spares e.breaker permit)
  advance-probes (leased permit client) (uses use') h open' =
      ground (arith, release-Spares e.breaker permit use')
  advance-probes p a h open' = ground arith
