-- ===== src/Breaker/Tests.antt =====
-- Runs of the circuit breaker, and its theorems at concrete inputs.
use srh_rs.Base.{◌+◌, ◌*◌, ◌≤◌, ◌≡◌, refl, true, false, List, [], ◌∷◌, some, ok, err, arith, text}
use srh_rs.Resp.{transport, pos, int}
use srh_rs.Breaker.{
  Breaker, BreakerPermit, Call, admits, records, half_open, open_state, second, new, record_outcome,
  step, opened,
}
use srh_rs.Breaker.Invariant.{IsValid, run, run-new-IsValid}
use srh_rs.Breaker.Probe.{history, count_live, one_probe}
use srh_rs.Breaker.Threshold.{feed, has_failure_run, opens_on_failure_run}
use srh_rs.Breaker.Executor.{Use, pipelined}

abbrev request : BreakerPermit
request = record { generation = 0; probe = false }

abbrev probe : BreakerPermit
probe = record { generation = 2; probe = true }

-- Two failures open a breaker of threshold two; after ten seconds a probe is let in.
abbrev calls : List Call
calls =
    admits 0
    ∷ records request true 1
    ∷ records request true 5
    ∷ admits 6
    ∷ admits (5 + 10 * second)
    ∷ admits (6 + 10 * second)
    ∷ []

abbrev tripped : Breaker
tripped = record {
  failure_threshold = 2;
  cooldown = 10 * second;
  inner = record {
    state = open_state;
    consecutive_failures = 2;
    opened_at = some 5;
    generation = 1;
  };
}

abbrev probing : Breaker
probing = record tripped { inner = record tripped.inner { state = half_open; generation = 2 } }

run-calls : run (new 2 (10 * second)) calls ≡ probing
unfolding run step new
run-calls = refl

history-calls : (history (new 2 (10 * second)) [] calls).1 ≡ probe ∷ request ∷ []
unfolding history new
history-calls = refl

probe_fails : (record_outcome probing probe true 7).1 ≡ some opened
unfolding record_outcome
probe_fails = refl

run-new-IsValid_example : IsValid (run (new 2 (10 * second)) calls)
run-new-IsValid_example = run-new-IsValid 2 (10 * second) calls (omega arith) (omega arith)

one_probe_example :
    let (b, issued) = history (new 2 (10 * second)) [] calls in count_live b issued ≤ 1
one_probe_example = one_probe 2 (10 * second) calls (omega arith)

opens_on_failure_run_example :
    (feed (new 2 9) request ((true, 1) ∷ (false, 2) ∷ (true, 3) ∷ (true, 4) ∷ [])).state
    ≡ open_state
unfolding has_failure_run
opens_on_failure_run_example =
    opens_on_failure_run 2 9 ((true, 1) ∷ (false, 2) ∷ (true, 3) ∷ (true, 4) ∷ []) (omega arith)

abbrev mixed_replies : Use
mixed_replies = pipelined (ok (int (pos 1)) ∷ err (transport (text "closed")) ∷ []) 8
