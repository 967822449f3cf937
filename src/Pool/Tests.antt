-- ===== src/Pool/Tests.antt =====
-- src/adapters/pool_manager.rs: a pool of one connection, used by two tasks.
use srh_rs.Resp.{simple}
use srh_rs.Http.Health.{status_of, report_ready}
use srh_rs.Pool.Manager.{replied}
use srh_rs.Pool.Readiness.{Probes, readiness, is_pong, probe_of, ready_iff}
use srh_rs.Base.{
  ℕ, ◌+◌, ◌≤◌, ◌<◌, ◌≡◌, ◌↔◌, ◌≢◌, refl, true, false, all, List, [], ◌∷◌, ◌++◌, none, some, err,
  length, get_elem?, total, text,
}
use srh_rs.Resp.{timeout}
use srh_rs.Breaker.{is_half_open, BreakerPermit}
use srh_rs.Breaker.Executor.{executed, abandoned}
use srh_rs.Config.{PoolConfig}
use srh_rs.Base.{Map, Text}
use srh_rs.Pool.Entry.{build, PoolEntry}
use srh_rs.Pool.Task.{
  Phase, Move, arrives, acts, goes_on, dropped, uses, leased, scanning, ended, advance, run, fresh,
}
use srh_rs.Pool.Invariant.{has_permit, in_queue, in_gauge, lock_at}
use srh_rs.Pool.Lease.{probes}
use srh_rs.Pool.Reach.{after}
use srh_rs.Pool.Safety.{permits_conserved, clients_exclusive, probe_held, all_returned, is_ended}
use srh_rs.Pool.Search.{advance-remaining, remaining}
use srh_rs.Pool.Gauge.{gauge_drifts, drift}

abbrev single : PoolConfig
single = record {
  connection_string = text "redis://localhost";
  max_connections = 1;
  command_timeout_ms = 1000;
  acquire_timeout_ms = 1000;
  max_waiters = 4;
  failure_threshold = 1;
  cooldown_ms = 1;
}

-- A task arrives and goes on to its lease: it is admitted, joins the queue, takes a permit, leaves
-- the queue and tries the only client.
abbrev goes : ℕ → Move
goes i = acts i (goes_on 5000000)

abbrev leases : ℕ → List Move
leases i = arrives ∷ goes i ∷ goes i ∷ goes i ∷ goes i ∷ goes i ∷ []

-- The first task's lease is abandoned and half given back; the second finds the client locked, and
-- is dropped while it waits for it.
abbrev crossing : List Move
crossing =
    leases 0 ++ acts 0 (uses abandoned) ∷ goes 0 ∷ leases 1 ++ goes 1 ∷ acts 1 dropped ∷ goes 0 ∷ []

-- The first task's command times out, which opens the breaker; the second task is its probe.
abbrev probing : List Move
probing =
    leases 0
    ++ acts 0 (uses (executed (err timeout) 0)) ∷ goes 0 ∷ goes 0 ∷ arrives ∷ goes 1 ∷ goes 1 ∷ []

blocked_then_dropped : (after single 0 crossing).tasks ≡ ended none ∷ ended none ∷ []
unfolding run build
blocked_then_dropped = refl

permits_conserved_example :
    let s = after single 0 (leases 0) in
    (s.entry.permits + total has_permit s.tasks ≡ 1)
    × (s.entry.waiters ≡ total in_queue s.tasks)
    × (total in_queue s.tasks ≤ 4)
permits_conserved_example = permits_conserved single 0 (leases 0)

first_leased :
    get_elem? (after single 0 (leases 0)).tasks 0
    ≡ some (leased (record { generation = 0; probe = false }) 0)
unfolding run build
first_leased = refl

clients_exclusive_example : ◌≡◌ {A = ℕ} 0 0
clients_exclusive_example =
    clients_exclusive single 0 (leases 0) 0 0 0 _ _ first_leased first_leased refl refl

half_open_now : is_half_open (after single 0 probing).entry.breaker.state ≡ true
unfolding run build
half_open_now = refl

probe_held_example :
    (i : ℕ) × (p : Phase) × (get_elem? (after single 0 probing).tasks i ≡ some p)
    × (1 ≤ probes (after single 0 probing).entry.breaker p)
probe_held_example = probe_held single 0 probing half_open_now

all_ended : all is_ended (after single 0 crossing).tasks ≡ true
unfolding run build
all_ended = refl

all_returned_example :
    ((after single 0 crossing).entry.permits ≡ 1)
    × ((after single 0 crossing).entry.waiters ≡ 0)
    × ((k : ℕ) → lock_at (after single 0 crossing).entry.client_leases k ≡ 0)
    × (is_half_open (after single 0 crossing).entry.breaker.state ≢ true)
all_returned_example = all_returned single 0 crossing all_ended

gauge_drifts_example :
    (after single 0 crossing).entry.permits_in_use.raised
    ≡ (after single 0 crossing).entry.permits_in_use.lowered
      + total in_gauge (after single 0 crossing).tasks
      + drift (fresh (build single 0)) crossing
gauge_drifts_example = gauge_drifts single 0 crossing

-- The gauge is at one although both tasks have ended, and the pool has not been evicted.
drifted : (after single 0 crossing).entry.permits_in_use ≡ record { raised = 2; lowered = 1 }
unfolding run build
drifted = refl

abbrev a_permit : BreakerPermit
a_permit = record { generation = 0; probe = false }

tries_next :
    advance (after single 0 (leases 0)).entry (scanning a_permit 0 0) (goes_on 0)
    ≡ some ((after single 0 (leases 0)).entry, scanning a_permit 0 1)
unfolding advance run build
tries_next = refl

advance-remaining_example :
    (remaining (length (after single 0 (leases 0)).entry.client_leases) (scanning a_permit 0 1)
      < remaining (length (after single 0 (leases 0)).entry.client_leases) (scanning a_permit 0 0))
    × (remaining (length (after single 0 (leases 0)).entry.client_leases) (scanning a_permit 0 0)
        ≤ 9 + length (after single 0 (leases 0)).entry.client_leases)
advance-remaining_example = advance-remaining _ _ _ _ (goes_on 0) tries_next

-- One pool, whose probe gets `PONG`.
abbrev pongs : Probes
pongs = record {
  show_debug = λ v. text "?";
  show_nat = λ n. text "500";
  command_timeout_ms = λ name. 2000;
  probe = λ name deadline_ms. replied (simple (text "PONG"));
}

abbrev one_built : Map PoolEntry
one_built = (text "a", build single 0) ∷ []

ready_iff_example :
    ((status_of (report_ready true (readiness pongs one_built)) ≡ 200)
      ↔ (all (λ (e : Text × PoolEntry). is_pong pongs (probe_of pongs e.0)) one_built ≡ true))
    × (status_of (report_ready false (readiness pongs one_built)) ≡ 404)
ready_iff_example = ready_iff pongs one_built
