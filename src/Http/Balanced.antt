-- ===== src/Http/Balanced.antt =====
-- src/http/mod.rs and src/http/observability.rs: the counts of requests after any moves.
use srh_rs.Base.{
  ℕ, suc, ◌+◌, ◌≤◌, ◌≡◌, ◌↔◌, refl, inl, inr, Bool, true, ◌&&◌, List, [], ◌∷◌, some, Text, length,
  get_elem?, total, total-set, total-append, arith, Bool-cases,
}
use srh_rs.Failure.{overloaded, into_response, endpoint_label, is_probe}
use srh_rs.Http.Serve.{place_of}
use srh_rs.Http.Observe.{AuditFields, no_fields, Recorded, record_request, succeeds}
use srh_rs.Http.InFlight.{
  Phase, under_way, answered, abandoned, Gate, Move, arrives, opened, is_limited, freed,
  end_request, complete, admit, shed_request, step, run, zero_or_suc, step-cases, run-all,
}

abbrev pub held : Phase → ℕ
held (under_way endpoint holds) = freed holds
held other = 0

abbrev pub live : Phase → ℕ
live (under_way endpoint holds) = 1
live other = 0

abbrev pub finished : Phase → ℕ
finished answered = 1
finished other = 0

-- Permits are out exactly for the requests that hold one, the gauge shows the requests under way,
-- and the requests that were answered are counted.
pub record Balanced (limit : ℕ) (g : Gate) : Type 0 where
  pub permits : g.permits + total held g.requests ≡ limit
  pub gauge : g.in_flight.raised ≡ g.in_flight.lowered + total live g.requests
  pub counted : length g.recorded.counted ≡ total finished g.requests

length-record_request :
    (endpoint : Text) (fields : AuditFields) (status latency_ms : ℕ) (r : Recorded)
    → length (record_request endpoint fields status latency_ms r).counted ≡ suc (length r.counted)
unfolding record_request
length-record_request endpoint fields status latency_ms r =
    elim (Bool-cases (is_probe endpoint && succeeds status)) [
      | inl t ↦ rw (t, record_request) refl
      | inr t ↦ rw (t, record_request) refl
    ]

module _ (limit : ℕ) (g : Gate) (b : Balanced limit g) where
  admit-Balanced :
      (endpoint : Text) (holds : Bool)
      → freed holds ≤ g.permits
      → Balanced limit (admit endpoint holds g)
  unfolding admit total
  admit-Balanced endpoint holds enough =
      let new : List Phase = under_way endpoint holds ∷ [] in
      record {
        permits = omega (arith, enough, b.permits, total-append held g.requests new);
        gauge = omega (arith, b.gauge, total-append live g.requests new);
        counted = omega (arith, b.counted, total-append finished g.requests new);
      }

  shed_request-Balanced :
      (secs : ℕ) (endpoint : Text) (ms : ℕ) → Balanced limit (shed_request secs endpoint ms g)
  unfolding shed_request total into_response
  shed_request-Balanced secs endpoint ms =
      let new : List Phase = answered ∷ [] in
      record {
        permits = omega (arith, b.permits, total-append held g.requests new);
        gauge = omega (arith, b.gauge, total-append live g.requests new);
        counted = omega (
          arith,
          b.counted,
          total-append finished g.requests new,
          length-record_request endpoint no_fields (into_response (overloaded secs)).status ms
              g.recorded,
        );
      }

  complete-Balanced :
      (i : ℕ) (endpoint : Text) (holds : Bool) (fields : AuditFields) (status latency_ms : ℕ)
      → get_elem? g.requests i ≡ some (under_way endpoint holds)
      → Balanced limit (complete i endpoint holds fields status latency_ms g)
  unfolding complete end_request
  complete-Balanced i endpoint holds fields status latency_ms h =
      let old : Phase = under_way endpoint holds in
      record {
        permits = omega (arith, b.permits, total-set held g.requests i old answered h);
        gauge = omega (arith, b.gauge, total-set live g.requests i old answered h);
        counted = omega (
          arith,
          b.counted,
          total-set finished g.requests i old answered h,
          length-record_request endpoint fields status latency_ms g.recorded,
        );
      }

  abandon-Balanced :
      (i : ℕ) (endpoint : Text) (holds : Bool)
      → get_elem? g.requests i ≡ some (under_way endpoint holds)
      → Balanced limit (end_request i holds abandoned g)
  unfolding end_request
  abandon-Balanced i endpoint holds h =
      let old : Phase = under_way endpoint holds in
      record {
        permits = omega (arith, b.permits, total-set held g.requests i old abandoned h);
        gauge = omega (arith, b.gauge, total-set live g.requests i old abandoned h);
        counted = omega (arith, b.counted, total-set finished g.requests i old abandoned h);
      }

step-Balanced :
    (limit secs : ℕ) (g : Gate) (m : Move) → Balanced limit g → Balanced limit (step secs g m)
step-Balanced limit secs g m b =
    step-cases (Balanced limit) secs g m b
      (λ path ms full. shed_request-Balanced limit g b secs (endpoint_label path) ms)
      (λ path holds enough. admit-Balanced limit g b (endpoint_label path) holds enough)
      (λ i endpoint holds fields status ms h.
        complete-Balanced limit g b i endpoint holds fields status ms h)
      (λ i endpoint holds h. abandon-Balanced limit g b i endpoint holds h)

-- Whatever requests arrive, are answered, run out of time or are abandoned by their clients, in any
-- order: the permits that are left and the requests that hold one make up the limit, the gauge shows
-- exactly the requests under way, and exactly the requests that were answered have been counted.
pub run-Balanced : (limit secs : ℕ) (ms : List Move) → Balanced limit (run secs (opened limit) ms)
unfolding opened total
run-Balanced limit secs ms =
    run-all (Balanced limit) secs (step-Balanced limit secs) (opened limit) ms
      record { permits = omega arith; gauge = refl; counted = refl }

-- A balanced gate sheds an arriving request exactly if its path is limited and no permit is left.
shed_of_step :
    (limit secs : ℕ) (g : Gate) (path : Text) (latency_ms : ℕ)
    → Balanced limit g
    → ((step secs g (arrives path latency_ms)).shed ≡ suc g.shed)
      ↔ ((is_limited (place_of path) ≡ true) × (total held g.requests ≡ limit))
unfolding step admit shed_request
shed_of_step limit secs g path latency_ms b = elim (Bool-cases (is_limited (place_of path))) [
  | inl api_path ↦ elim (zero_or_suc g.permits) [
    | inl none_left ↦
        rw (api_path, step)
          (rw none_left (λ h. (refl, omega (arith, b.permits, none_left)), λ h. omega arith))
    | inr (n, some_left) ↦
        rw (api_path, step)
          (rw some_left
            (λ h. absurd (omega arith), λ h. absurd (omega (arith, b.permits, some_left, h.1))))
  ]
  | inr other ↦ rw (other, step) (λ h. absurd (omega arith), λ h. absurd (ground arith))
]

-- The gate after moves.
unfoldable pub after : (limit secs : ℕ) → List Move → Gate
unfolding run opened
after limit secs ms = run secs (opened limit) ms

-- After any moves, a request that arrives for the API is shed exactly if as many requests hold a
-- permit as the limit allows; a request for another path never is, whatever the load.
pub shed_iff :
    (limit secs : ℕ) (ms : List Move) (path : Text) (latency_ms : ℕ)
    → ((step secs (after limit secs ms) (arrives path latency_ms)).shed
        ≡ suc (after limit secs ms).shed)
      ↔ ((is_limited (place_of path) ≡ true) × (total held (after limit secs ms).requests ≡ limit))
unfolding after
shed_iff limit secs ms path latency_ms =
    shed_of_step limit secs (run secs (opened limit) ms) path latency_ms
      (run-Balanced limit secs ms)
