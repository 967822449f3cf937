-- ===== src/Pool/Entry.antt =====
-- src/adapters/pool_manager.rs: the state of one pool, and what is done to it in one piece. The
-- client that is connected, `fred`'s, stays outside: of its connection tasks it matters whether
-- they have finished, and a client is its index.
use srh_rs.Base.{
  ℕ, zero, suc, ◌+◌, ◌%◌, ◌*◌, ◌-◌, ◌&&◌, ◌==◌, Bool, true, false, not, List, [], ◌∷◌, ◌++◌, Option,
  none, some, length, ltb, if◌then◌else◌, wrapping_add,
}
use srh_rs.Breaker.{Breaker, BreakerTransition, opened, probe_started, closed_again, new}
use srh_rs.Config.{PoolConfig}

-- The gauge of permits in use is what was added to it less what was taken from it.
pub record Gauge : Type 0 where
  pub raised : ℕ
  pub lowered : ℕ

-- Of a lock, whether it is held; of a connection task, whether it has finished; of the semaphore,
-- the permits that are available.
pub record PoolEntry : Type 0 where
  pub permits_in_use : Gauge
  pub client_leases : List Bool
  pub client_operations : List Bool
  pub next_client : ℕ
  pub connection_tasks : List Bool
  pub last_used : ℕ
  pub permits : ℕ
  pub permit_count : ℕ
  pub waiters : ℕ
  pub max_waiters : ℕ
  pub breaker : Breaker

unfoldable pub replicate {ℓ} : {A : Type ℓ} → ℕ → A → List A
replicate zero x = []
replicate (suc n) x = x ∷ replicate n x

-- `build`, of a client library that accepts the connection string.
unfoldable pub build : PoolConfig → ℕ → PoolEntry
unfolding replicate new
build config unix_secs = record {
  permits_in_use = record { raised = 0; lowered = 0 };
  client_leases = replicate config.max_connections false;
  client_operations = replicate config.max_connections false;
  next_client = 0;
  connection_tasks = false ∷ [];
  last_used = unix_secs;
  permits = config.max_connections;
  permit_count = config.max_connections;
  waiters = 0;
  max_waiters = config.max_waiters;
  breaker = new config.failure_threshold (config.cooldown_ms * 1000000);
}

unfoldable pub is_free : List Bool → ℕ → Bool
is_free [] i = false
is_free (held ∷ rest) zero = not held
is_free (held ∷ rest) (suc i) = is_free rest i

-- `tasks.retain(|task| !task.is_finished())`.
unfoldable pub retain : List Bool → List Bool
retain [] = []
retain (true ∷ tasks) = retain tasks
retain (false ∷ tasks) = false ∷ retain tasks

unfoldable pub ensure_connection_task : PoolEntry → PoolEntry
unfolding retain
ensure_connection_task e = record e {
  connection_tasks = elim (retain e.connection_tasks) [
    | [] ↦ false ∷ []
    | task ∷ tasks ↦ task ∷ tasks
  ];
}

unfoldable pub restart_connection_task : PoolEntry → PoolEntry
unfolding retain
restart_connection_task e = record e {
  connection_tasks = retain e.connection_tasks ++ (false ∷ []);
}

-- What an admission does besides: a probe starts a connection task.
unfoldable pub announce : Option BreakerTransition → PoolEntry → PoolEntry
unfolding restart_connection_task
announce (some probe_started) e = restart_connection_task e
announce (some opened) e = e
announce (some closed_again) e = e
announce none e = e

-- The client that is tried at an offset from the first.
abbrev pub nth_client : ℕ → ℕ → ℕ → ℕ
nth_client size start offset = (start + offset) % size

-- The first free client of as many as are left, from an offset on.
unfoldable pub find_free : List Bool → (size start offset count : ℕ) → Option ℕ
unfolding is_free
find_free held size start offset zero = none
find_free held size start offset (suc count) =
    let later = find_free held size start (offset + 1) count in
    let index = nth_client size start offset in if is_free held index then some index else later

-- `fetch_add` on the counter of clients, and the client to start from.
unfoldable pub first_client : PoolEntry → ℕ × PoolEntry
first_client e = (
  e.next_client % length e.client_leases,
  record e { next_client = wrapping_add e.next_client 1 },
)

unfoldable pub readiness_client : PoolEntry → ℕ × PoolEntry
unfolding find_free
readiness_client e =
    let size = length e.client_operations in
    let start = e.next_client % size in
    (
      elim (find_free e.client_operations size start 0 size) [ some index ↦ index | none ↦ start ],
      record e { next_client = wrapping_add e.next_client 1 },
    )

-- Whether `evict_idle` removes the pool at a time, all that it reads being read at one moment.
abbrev pub idle_eviction_secs : ℕ
idle_eviction_secs = 900

unfoldable pub is_idle : PoolEntry → ℕ → Bool
is_idle e now =
    ltb idle_eviction_secs (now - e.last_used) && e.permits == e.permit_count && e.waiters == 0
