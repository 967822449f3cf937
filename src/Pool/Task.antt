-- ===== src/Pool/Task.antt =====
-- src/adapters/pool_manager.rs: `acquire_entry` and the drop of its handle, as tasks that share a
-- pool. A task's phase is what it holds and where it stands. A move is an access to the shared state,
-- or a few in a row of which each concerns another part of it, as when a guard is dropped after
-- another; the tasks' moves come in any order. Requests wait for a permit in any order too.
use srh_rs.Base.{
  ℕ, ◌+◌, ◌-◌, true, false, List, [], ◌∷◌, ◌++◌, Option, none, some, Result, ok, err, length,
  get_elem?, set, ltb, if◌then◌else◌,
}
use srh_rs.Resp.{AcquireError, pool_open, overloaded}
use srh_rs.Breaker.{Breaker, BreakerPermit, BreakerAdmission, admit, cancel}
use srh_rs.Breaker.Executor.{Use, release}
use srh_rs.Pool.Entry.{PoolEntry, announce, first_client, is_free, nth_client}

-- From `arrived` on, in the order of the code. While it has a breaker's permit, an admission guard
-- or, once `leased`, the executor gives it back.
pub data Phase : Type 0 where
  arrived : Phase
  admitted : BreakerPermit → Phase
  waiting : BreakerPermit → Phase
  granted : BreakerPermit → Phase
  scanning : BreakerPermit → (start offset : ℕ) → Phase
  blocked : BreakerPermit → (start : ℕ) → Phase
  leased : BreakerPermit → (client : ℕ) → Phase
  used : (client : ℕ) → Phase
  releasing : (client : ℕ) → Phase
  ended : Option AcquireError → Phase

-- What happens to a task: it goes on, at a reading of the clock; while it waits it is dropped or its
-- time for a permit runs out; or its lease is used, or dropped, which ends it.
pub data Action : Type 0 where
  goes_on : (now : ℕ) → Action
  dropped : Action
  times_out : Action
  uses : Use → Action

abbrev Turn : Type 0
Turn = Option (PoolEntry × Phase)

unfoldable pub admit_task : PoolEntry → Breaker × Result BreakerAdmission ℕ → PoolEntry × Phase
unfolding announce
admit_task e (b, ok admission) =
    (announce admission.transition (record e { breaker = b }), admitted admission.permit)
admit_task e (b, err retry_after_secs) =
    (record e { breaker = b }, ended (some (pool_open retry_after_secs)))

-- The breaker after an admission guard is dropped.
abbrev give_up : PoolEntry → BreakerPermit → PoolEntry
give_up e permit = record e { breaker = cancel e.breaker permit }

unfoldable pub join_queue : PoolEntry → BreakerPermit → PoolEntry × Phase
unfolding cancel
join_queue e permit =
    if ltb e.waiters e.max_waiters
    then (record e { waiters = e.waiters + 1 }, waiting permit)
    else (give_up e permit, ended (some overloaded))

-- `drop(waiter)`, by itself and with the guard.
abbrev leave_queue : PoolEntry → PoolEntry
leave_queue e = record e { waiters = e.waiters - 1 }

unfoldable pub take_permit : PoolEntry → BreakerPermit → Turn
take_permit e permit =
    if ltb 0 e.permits then some (record e { permits = e.permits - 1 }, granted permit) else none

-- With the permit: out of the queue, into the gauge, and on to the first client.
unfoldable pub start_scan : PoolEntry → BreakerPermit → PoolEntry × Phase
unfolding first_client
start_scan e permit =
    let (start, next) = first_client e in
    (
      record (leave_queue next) {
        permits_in_use = record e.permits_in_use { raised = e.permits_in_use.raised + 1 };
      },
      scanning permit start 0,
    )

abbrev lock : PoolEntry → ℕ → PoolEntry
lock e client = record e { client_leases = set e.client_leases client true }

-- `try_lock_owned` of one client of `acquire_client`.
unfoldable pub try_client : PoolEntry → BreakerPermit → (start offset : ℕ) → PoolEntry × Phase
unfolding is_free
try_client e permit start offset =
    let size = length e.client_leases in
    let index = nth_client size start offset in
    if ltb offset size
    then (if is_free e.client_leases index
        then (lock e index, leased permit index)
        else (e, scanning permit start (offset + 1)))
    else (e, blocked permit start)

-- `lock_owned` of the first client, once it is free.
unfoldable pub await_client : PoolEntry → BreakerPermit → ℕ → Turn
unfolding is_free
await_client e permit start =
    if is_free e.client_leases start then some (lock e start, leased permit start) else none

-- A `PoolLease` is dropped: the gauge and the permit, and after them the client.
unfoldable pub drop_permit : PoolEntry → PoolEntry
drop_permit e = record e {
  permits_in_use = record e.permits_in_use { lowered = e.permits_in_use.lowered + 1 };
  permits = e.permits + 1;
}

unfoldable pub drop_client : PoolEntry → ℕ → PoolEntry
drop_client e client = record e { client_leases = set e.client_leases client false }

-- One move of a task; `none` where it cannot make it.
unfoldable pub advance : PoolEntry → Phase → Action → Turn
unfolding admit admit_task join_queue take_permit start_scan try_client await_client drop_permit
    drop_client cancel release
advance e arrived (goes_on now) = some (admit_task e (admit e.breaker now))
advance e (admitted permit) (goes_on now) = some (join_queue e permit)
advance e (waiting permit) (goes_on now) = take_permit e permit
advance e (waiting permit) dropped = some (give_up (leave_queue e) permit, ended none)
advance e (waiting permit) times_out =
    some (give_up (leave_queue e) permit, ended (some overloaded))
advance e (granted permit) (goes_on now) = some (start_scan e permit)
advance e (scanning permit start offset) (goes_on now) = some (try_client e permit start offset)
advance e (blocked permit start) (goes_on now) = await_client e permit start
advance e (blocked permit start) dropped =
    some (record (give_up e permit) { permits = e.permits + 1 }, ended none)
advance e (leased permit client) (uses use') =
    some (record e { breaker = release permit e.breaker use' }, used client)
advance e (used client) (goes_on now) = some (drop_permit e, releasing client)
advance e (releasing client) (goes_on now) = some (drop_client e client, ended none)
advance e phase action = none

-- A pool and its tasks.
pub record System : Type 0 where
  pub entry : PoolEntry
  pub tasks : List Phase

pub data Move : Type 0 where
  arrives : Move
  acts : (task : ℕ) → Action → Move

-- A move that cannot be made changes nothing.
unfoldable pub settle : System → ℕ → Turn → System
settle s i none = s
settle s i (some (e, p)) = record { entry = e; tasks = set s.tasks i p }

unfoldable pub act : System → ℕ → Action → Option Phase → System
unfolding settle advance
act s i action none = s
act s i action (some p) = settle s i (advance s.entry p action)

unfoldable pub step : System → Move → System
unfolding act
step s arrives = record s { tasks = s.tasks ++ (arrived ∷ []) }
step s (acts i action) = act s i action (get_elem? s.tasks i)

unfoldable pub run : System → List Move → System
unfolding step
run s [] = s
run s (m ∷ ms) = run (step s m) ms

-- A pool that no task uses.
abbrev pub fresh : PoolEntry → System
fresh e = record { entry = e; tasks = [] }
