-- ===== src/Pool/Manager.antt =====
-- src/adapters/pool_manager.rs: the pools by name. The map's lock makes building one atomic, and so
-- is each removal; the client library, which may refuse a connection string, is a parameter.
use srh_rs.Base.{
  ℕ, ◌+◌, ◌≡◌, refl, ◌||◌, text_eq_iff, Bool, false, List, [], ◌∷◌, ◌++◌, Option, none, some,
  Result, ok, err, Text, text, text_eq, Map, lookup, insert, remove, map, if◌then◌else◌, arith, min,
  lookup-remove,
}
use srh_rs.Resp.{
  AcquireError, unknown_pool, internal, PoolReadinessStatus, ready, unavailable, RespValue,
  ExecError, show_exec_error, simple,
}
use srh_rs.Config.{PoolConfig}
use srh_rs.Pool.Entry.{PoolEntry, Gauge, build, ensure_connection_task, is_idle}

-- `get_or_build`, with the configured pools, what the client library says to a pool's
-- configuration, and the time.
unfoldable pub get_or_build :
    Map PoolConfig
    → (PoolConfig → Option Text)
    → Map PoolEntry
    → Text
    → ℕ
    → Map PoolEntry × Result PoolEntry AcquireError
unfolding lookup insert build ensure_connection_task
get_or_build configs refuses pools name unix_secs = elim (lookup name configs) [
  | none ↦ (pools, err (unknown_pool name))
  | some config ↦ elim (lookup name pools) [
    | some entry ↦
        let entry' = record (ensure_connection_task entry) { last_used = unix_secs } in
        (insert name entry' pools, ok entry')
    | none ↦ elim (refuses config) [
      | some error ↦ (pools, err (internal error))
      | none ↦ let built = build config unix_secs in (insert name built pools, ok built)
    ]
  ]
]

-- One turn of the loop of `evict_idle`: the pools and how many were removed. What it does to the
-- gauges of a pool is `reset_gauge`.
unfoldable pub evict_name : ℕ → Text → Map PoolEntry × ℕ → Map PoolEntry × ℕ
unfolding lookup remove is_idle
evict_name now name (pools, evicted) = elim (lookup name pools) [
  | none ↦ (pools, evicted)
  | some entry ↦ if is_idle entry now then (remove name pools, evicted + 1) else (pools, evicted)
]

unfoldable pub evict_names : ℕ → List Text → Map PoolEntry × ℕ → Map PoolEntry × ℕ
evict_names now [] r = r
evict_names now (name ∷ names) r = evict_names now names (evict_name now name r)

-- `evict_idle`, of pools that do not change meanwhile: the pools and the count. With it goes
-- `reset_gauge` for each pool's gauge.
unfoldable pub evict_idle : Map PoolEntry → ℕ → Map PoolEntry × ℕ
unfolding evict_names
evict_idle pools now = evict_names now (map (λ e. e.0) pools) (pools, 0)

-- What `evict_idle` leaves of the gauge of permits in use of a pool, by its name. The registry of
-- metrics keeps the gauge when the pool is gone, and an eviction sets it to zero, as a build does. The
-- other two gauges are set to zero likewise: that of waiters shows the counter `waiters`, and that of
-- active connections what the client library says.
abbrev pub no_permits : Gauge
no_permits = record { raised = 0; lowered = 0 }

unfoldable pub reset_gauge : Map PoolEntry → ℕ → Text → Gauge → Gauge
unfolding lookup is_idle
reset_gauge pools now name gauge = elim (lookup name pools) [
  | none ↦ gauge
  | some entry ↦ if is_idle entry now then no_permits else gauge
]

-- `shutdown`: every pool that there is at the start is removed.
unfoldable pub shutdown_names : List Text → Map PoolEntry → Map PoolEntry
unfolding remove
shutdown_names [] pools = pools
shutdown_names (name ∷ names) pools = shutdown_names names (remove name pools)

unfoldable pub shutdown : Map PoolEntry → Map PoolEntry
unfolding shutdown_names
shutdown pools = shutdown_names (map (λ e. e.0) pools) pools

-- How a readiness probe of one pool ended: a reply, an error, a task that failed, or no end in time.
pub data Probe : Type 0 where
  replied : RespValue → Probe
  failed : ExecError → Probe
  panicked : Text → Probe
  late : Probe

-- The status that readiness gives a pool. How replies and numbers are written is a parameter.
module _ (show_debug : RespValue → Text) (show_nat : ℕ → Text) where
  unfoldable pub readiness_status : (deadline_millis : ℕ) → Probe → PoolReadinessStatus
  unfolding text_eq show_exec_error
  readiness_status deadline_millis (replied (simple response)) =
      if text_eq response (text "PONG")
      then ready
      else unavailable (text "unexpected readiness PING response: " ++ show_debug (simple response))
  readiness_status deadline_millis (replied response) =
      unavailable (text "unexpected readiness PING response: " ++ show_debug response)
  readiness_status deadline_millis (failed error) = unavailable (show_exec_error error)
  readiness_status deadline_millis (panicked error) =
      unavailable (text "readiness probe task failed: " ++ error)
  readiness_status deadline_millis late =
      unavailable
        (text "readiness PING timed out after " ++ (show_nat deadline_millis ++ text " ms"))

-- The deadline of a probe, in milliseconds.
unfoldable pub deadline : (command_timeout_ms : ℕ) → ℕ
deadline command_timeout_ms = min 500 command_timeout_ms

-- What `evict_idle` leaves of a pool.
abbrev pub kept : ℕ → Option PoolEntry → Option PoolEntry
kept now none = none
kept now (some entry) = if is_idle entry now then none else some entry

kept_idem : (now : ℕ) (o : Option PoolEntry) → kept now (kept now o) ≡ kept now o
kept_idem now none = refl
kept_idem now (some entry) = ground arith

lookup-evict_name :
    (now n : ℕ) (name k : Text) (pools : Map PoolEntry)
    → lookup k (evict_name now name (pools, n)).0
      ≡ (if text_eq name k then kept now (lookup k pools) else lookup k pools)
unfolding evict_name
lookup-evict_name now n name k pools =
    ground (arith, lookup-remove name k pools, text_eq_iff name k)

-- Whether a name is in a list of names.
abbrev pub named : Text → List Text → Bool
named k [] = false
named k (name ∷ names) = text_eq name k || named k names

lookup-evict_names :
    (now n : ℕ) (names : List Text) (k : Text) (pools : Map PoolEntry)
    → lookup k (evict_names now names (pools, n)).0
      ≡ (if named k names then kept now (lookup k pools) else lookup k pools)
unfolding evict_names
lookup-evict_names now n [] k pools = refl
lookup-evict_names now n (name ∷ names) k pools =
    let (rest, m) = evict_name now name (pools, n) in
    ground (
      arith,
      lookup-evict_names now m names k rest,
      lookup-evict_name now n name k pools,
      kept_idem now (lookup k pools),
    )

lookup-named :
    (k : Text) (pools : Map PoolEntry)
    → named k (map (λ e. e.0) pools) ≡ false
    → lookup k pools ≡ none
unfolding lookup
lookup-named k [] h = refl
lookup-named k ((j, e) ∷ pools) h = ground (arith, lookup-named k pools)

-- After an eviction exactly the pools that were not idle are there, as they were.
pub lookup-evict_idle :
    (now : ℕ) (pools : Map PoolEntry) (k : Text)
    → lookup k (evict_idle pools now).0 ≡ kept now (lookup k pools)
unfolding evict_idle
lookup-evict_idle now pools k =
    ground (arith, lookup-evict_names now 0 (map (λ e. e.0) pools) k pools, lookup-named k pools)
