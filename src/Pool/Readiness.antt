-- ===== src/Pool/Readiness.antt =====
-- src/adapters/pool_manager.rs and src/http/health.rs: readiness, from the pools to the answer. How a
-- probe of a pool ends within its deadline is a parameter.
use srh_rs.Base.{
  ℕ, ◌≡◌, ◌↔◌, sym, refl, Bool, true, false, List, [], ◌∷◌, Text, text, text_eq, Map, all,
  Bool-cases, inl, inr,
}
use srh_rs.Resp.{PoolReadiness, RespValue, simple, bulk, int, nil, array}
use srh_rs.Pool.Entry.{PoolEntry}
use srh_rs.Pool.Manager.{Probe, replied, failed, panicked, late, readiness_status, deadline}
use srh_rs.Http.Health.{is_ready, report_ready, report_ready-ok_iff, status_of}

-- The deadline of a pool's probe in milliseconds, of the timeout that the pool was built with, and
-- how the probe then ends.
pub record Probes : Type 0 where
  pub show_debug : RespValue → Text
  pub show_nat : ℕ → Text
  pub command_timeout_ms : Text → ℕ
  pub probe : Text → (deadline_ms : ℕ) → Probe

module _ (p : Probes) where
  -- How a pool's probe ends.
  abbrev pub probe_of : Text → Probe
  probe_of name = p.probe name (deadline (p.command_timeout_ms name))

  -- `readiness`: the pools that have been built, in any order, by name.
  unfoldable pub readiness : Map PoolEntry → List PoolReadiness
  unfolding readiness_status deadline
  readiness [] = []
  readiness ((name, entry) ∷ pools) =
      record {
        pool = name;
        status =
            readiness_status p.show_debug p.show_nat (deadline (p.command_timeout_ms name))
              (probe_of name);
      }
      ∷ readiness pools

  -- A probe that got `PONG` in time.
  abbrev pub is_pong : Probe → Bool
  is_pong (replied (simple response)) = text_eq response (text "PONG")
  is_pong other = false

  status-is_pong :
      (ms : ℕ) (x : Probe) → is_ready (readiness_status p.show_debug p.show_nat ms x) ≡ is_pong x
  unfolding readiness_status
  status-is_pong ms (replied (simple t)) = elim (Bool-cases (text_eq t (text "PONG"))) [
    | inl pong ↦ rw (pong, readiness_status) refl
    | inr other ↦ rw (other, readiness_status) refl
  ]
  status-is_pong ms (replied (bulk t)) = refl
  status-is_pong ms (replied (int n)) = refl
  status-is_pong ms (replied nil) = refl
  status-is_pong ms (replied (array vs)) = refl
  status-is_pong ms (failed e) = refl
  status-is_pong ms (panicked e) = refl
  status-is_pong ms late = refl

  readiness-all :
      (pools : Map PoolEntry)
      → all (λ r. is_ready r.status) (readiness pools) ≡ all (λ e. is_pong (probe_of e.0)) pools
  unfolding readiness
  readiness-all [] = refl
  readiness-all ((name, entry) ∷ pools) =
      rw
        (status-is_pong (deadline (p.command_timeout_ms name)) (probe_of name), readiness-all pools)
        refl

  -- The readiness endpoint answers a loopback peer with 200 exactly if every pool that has been built
  -- answered its probe with `PONG` within the probe's deadline; any other peer gets 404.
  pub ready_iff :
      (pools : Map PoolEntry)
      → ((status_of (report_ready true (readiness pools)) ≡ 200)
          ↔ (all (λ e. is_pong (probe_of e.0)) pools ≡ true))
        × (status_of (report_ready false (readiness pools)) ≡ 404)
  unfolding report_ready
  ready_iff pools =
      (rw (sym (readiness-all pools)) (report_ready-ok_iff true (readiness pools)), refl)
