-- ===== src/Http/Health.antt =====
-- src/http/health.rs: the readiness endpoint, given what the pools' probes found.
use srh_rs.Base.{
  ℕ, ◌≡◌, ◌↔◌, Bool, true, false, ◌&&◌, List, [], ◌∷◌, Option, none, some, Text, text, Map, insert,
  all, if◌then◌else◌, arith,
}
use srh_rs.Resp.{PoolReadiness, PoolReadinessStatus, ready, unavailable}

pub record PoolReport : Type 0 where
  pub status : Text
  pub error : Option Text

-- The response: its status, and the overall status with the pools' or an error.
pub data Report : Type 0 where
  not_found : Report
  report : (status : ℕ) → (overall : Text) → Map PoolReport → Report

abbrev pub status_of : Report → ℕ
status_of not_found = 404
status_of (report status overall pools) = status

unfoldable pub report_of : PoolReadinessStatus → PoolReport
report_of ready = record { status = text "ready"; error = none }
report_of (unavailable reason) = record { status = text "unavailable"; error = some reason }

abbrev pub is_ready : PoolReadinessStatus → Bool
is_ready ready = true
is_ready (unavailable reason) = false

-- The pass over the pools: whether all are ready, and their reports by name.
unfoldable pub collect : List PoolReadiness → Bool × Map PoolReport → Bool × Map PoolReport
unfolding report_of insert
collect [] r = r
collect (p ∷ ps) (all_ready, pools) =
    collect ps (all_ready && is_ready p.status, insert p.pool (report_of p.status) pools)

-- `ready`.
unfoldable pub report_ready : (loopback : Bool) → List PoolReadiness → Report
unfolding collect
report_ready loopback readiness =
    if loopback
    then (let (all_ready, pools) = collect readiness (true, []) in
        report (if all_ready then 200 else 503)
          (if all_ready then text "ready" else text "not_ready") pools)
    else not_found

collect-ready :
    (ps : List PoolReadiness) (b : Bool) (m : Map PoolReport)
    → (collect ps (b, m)).0 ≡ (b && all (λ p. is_ready p.status) ps)
unfolding collect
collect-ready [] b m = ground arith
collect-ready (p ∷ ps) b m =
    ground (arith, collect-ready ps (b && is_ready p.status) (insert p.pool (report_of p.status) m))

-- The readiness endpoint answers 200 exactly when a loopback peer asks and every pool is ready.
pub report_ready-ok_iff :
    (loopback : Bool) (readiness : List PoolReadiness)
    → (status_of (report_ready loopback readiness) ≡ 200)
      ↔ (loopback && all (λ p. is_ready p.status) readiness ≡ true)
unfolding report_ready
report_ready-ok_iff false readiness = ground arith
report_ready-ok_iff true readiness = ground (arith, collect-ready readiness true [])
