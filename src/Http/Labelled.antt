-- ===== src/Http/Labelled.antt =====
-- src/http/observability.rs: the labels that are counted and the lines that are logged.
use srh_rs.Base.{
  ℕ, ◌≡◌, inl, inr, Bool, true, false, ◌&&◌, List, [], ◌∷◌, some, Text, text, text_eq, get_elem?,
  All, All-append, All-set, All-get, arith, Bool-cases, contains, map,
}
use srh_rs.Failure.{overloaded, into_response, endpoint_label, status_label, is_probe}
use srh_rs.Http.Observe.{AuditFields, no_fields, Recorded, record_request, succeeds, line_of, Line}
use srh_rs.Http.InFlight.{
  Phase, under_way, answered, abandoned, Gate, Move, opened, end_request, complete, admit,
  shed_request, step, run, step-cases, run-all,
}

abbrev endpoints : List Text
endpoints = map text ("/" ∷ "/pipeline" ∷ "/multi-exec" ∷ "/health" ∷ "/ready" ∷ "other" ∷ [])

abbrev statuses : List Text
statuses = map text (
    "200" ∷ "400" ∷ "401" ∷ "403" ∷ "404" ∷ "405" ∷ "408" ∷ "413" ∷ "429" ∷ "500" ∷ "502" ∷ "503"
    ∷ "other" ∷ [])

-- A count is under labels of the fixed sets; a line is not of a probe that succeeded.
abbrev IsLabel : Text × Text → Type 0
IsLabel c = (contains endpoints c.0 ≡ true) × (contains statuses c.1 ≡ true)

abbrev IsTold : Line → Type 0
IsTold l = is_probe l.endpoint && succeeds l.status ≡ false

abbrev IsNamed : Phase → Type 0
IsNamed (under_way endpoint holds) = contains endpoints endpoint ≡ true
IsNamed other = Unit

pub record Labelled (g : Gate) : Type 0 where
  pub counted : All IsLabel g.recorded.counted
  pub lines : All IsTold g.recorded.lines
  requests : All IsNamed g.requests

endpoint_known : (path : Text) → contains endpoints (endpoint_label path) ≡ true
unfolding contains endpoint_label text_eq
endpoint_known path = ground arith

status_known : (status : ℕ) → contains statuses (status_label status) ≡ true
unfolding contains status_label text_eq
status_known status = ground arith

-- Recording under a known label.
record_request-All :
    (endpoint : Text) (fields : AuditFields) (status latency_ms : ℕ) (r : Recorded)
    → contains endpoints endpoint ≡ true
    → All IsLabel r.counted
    → All IsTold r.lines
    → All IsLabel (record_request endpoint fields status latency_ms r).counted
      × All IsTold (record_request endpoint fields status latency_ms r).lines
unfolding record_request line_of
record_request-All endpoint fields status latency_ms r known counted lines =
    elim (Bool-cases (is_probe endpoint && succeeds status)) [
      | inl quiet ↦ rw (quiet, record_request) (((known, status_known status), counted), lines)
      | inr told ↦
          rw (told, record_request) (((known, status_known status), counted), (told, lines))
    ]

module _ (g : Gate) (b : Labelled g) where
  admit-Labelled :
      (endpoint : Text) (holds : Bool)
      → contains endpoints endpoint ≡ true
      → Labelled (admit endpoint holds g)
  unfolding admit
  admit-Labelled endpoint holds known = record {
    counted = b.counted;
    lines = b.lines;
    requests = All-append IsNamed g.requests (under_way endpoint holds ∷ []) b.requests (known, tt);
  }

  shed_request-Labelled :
      (secs : ℕ) (endpoint : Text) (ms : ℕ)
      → contains endpoints endpoint ≡ true
      → Labelled (shed_request secs endpoint ms g)
  unfolding shed_request
  shed_request-Labelled secs endpoint ms known =
      let (counted, lines) =
        record_request-All endpoint no_fields (into_response (overloaded secs)).status ms g.recorded
          known b.counted b.lines in
      record {
        counted = counted;
        lines = lines;
        requests = All-append IsNamed g.requests (answered ∷ []) b.requests (tt, tt);
      }

  complete-Labelled :
      (i : ℕ) (endpoint : Text) (holds : Bool) (fields : AuditFields) (status latency_ms : ℕ)
      → get_elem? g.requests i ≡ some (under_way endpoint holds)
      → Labelled (complete i endpoint holds fields status latency_ms g)
  unfolding complete end_request
  complete-Labelled i endpoint holds fields status latency_ms h =
      let (counted, lines) =
        record_request-All endpoint fields status latency_ms g.recorded
          (All-get IsNamed g.requests i (under_way endpoint holds) b.requests h) b.counted
          b.lines in
      record {
        counted = counted;
        lines = lines;
        requests = All-set IsNamed g.requests i answered b.requests tt;
      }

  abandon-Labelled : (i : ℕ) (holds : Bool) → Labelled (end_request i holds abandoned g)
  unfolding end_request
  abandon-Labelled i holds = record {
    counted = b.counted;
    lines = b.lines;
    requests = All-set IsNamed g.requests i abandoned b.requests tt;
  }

step-Labelled : (secs : ℕ) (g : Gate) (m : Move) → Labelled g → Labelled (step secs g m)
step-Labelled secs g m b =
    step-cases Labelled secs g m b
      (λ path ms full.
        shed_request-Labelled g b secs (endpoint_label path) ms (endpoint_known path))
      (λ path holds enough. admit-Labelled g b (endpoint_label path) holds (endpoint_known path))
      (λ i endpoint holds fields status ms h.
        complete-Labelled g b i endpoint holds fields status ms h)
      (λ i endpoint holds h. abandon-Labelled g b i holds)

-- Whatever requests arrive and however they end, each count is under one of six endpoint labels and
-- one of thirteen status labels, and no line of the log is of a probe that succeeded.
pub run-Labelled : (limit secs : ℕ) (ms : List Move) → Labelled (run secs (opened limit) ms)
unfolding opened
run-Labelled limit secs ms =
    run-all Labelled secs (step-Labelled secs) (opened limit) ms
      record { counted = tt; lines = tt; requests = tt }
