-- ===== src/Http/InFlight.antt =====
-- src/http/mod.rs and src/http/observability.rs: the requests in flight. A move is what happens next
-- to one request: it arrives, its handler answers, its deadline passes, or its client goes. The
-- layers of tower (load_shed, GlobalConcurrencyLimit, timeout) stand here as the code uses them.
use srh_rs.Base.{
  ℕ, zero, suc, ◌+◌, ◌-◌, ◌≤◌, ◌≡◌, ◌⊎◌, inl, inr, refl, Bool-cases, Option-cases, Bool, true,
  false, List, [], ◌∷◌, ◌++◌, some, Text, get_elem?, set, if◌then◌else◌, arith,
}
use srh_rs.Failure.{overloaded, into_response, endpoint_label}
use srh_rs.Pool.Entry.{Gauge}
use srh_rs.Http.Serve.{Place, api, place_of}
use srh_rs.Http.Observe.{AuditFields, no_fields, Recorded, record_request}

-- A request under way, with its endpoint's label and whether it holds a permit; or one that is over.
pub data Phase : Type 0 where
  under_way : Text → Bool → Phase
  answered abandoned : Phase

pub record Gate : Type 0 where
  pub permits : ℕ
  pub in_flight : Gauge
  pub shed : ℕ
  pub requests : List Phase
  pub recorded : Recorded

pub data Move : Type 0 where
  arrives : (path : Text) (latency_ms : ℕ) → Move
  answers : (request : ℕ) (fields : AuditFields) (status latency_ms : ℕ) → Move
  expires : (request : ℕ) (fields : AuditFields) (latency_ms : ℕ) → Move
  leaves : (request : ℕ) → Move

unfoldable pub opened : (max_in_flight : ℕ) → Gate
opened max_in_flight = record {
  permits = max_in_flight;
  in_flight = record { raised = 0; lowered = 0 };
  shed = 0;
  requests = [];
  recorded = record { counted = []; lines = [] };
}

abbrev pub is_limited : Place → Bool
is_limited (api endpoint) = true
is_limited other = false

-- `InFlight::enter` and its drop.
abbrev pub enter : Gauge → Gauge
enter g = record g { raised = g.raised + 1 }

abbrev pub leave : Gauge → Gauge
leave g = record g { lowered = g.lowered + 1 }

abbrev pub freed : Bool → ℕ
freed true = 1
freed false = 0

-- The end of a request: its permit and its place in the gauge are given back.
unfoldable pub end_request : ℕ → Bool → Phase → Gate → Gate
end_request request holds phase g = record g {
  permits = g.permits + freed holds;
  in_flight = leave g.in_flight;
  requests = set g.requests request phase;
}

unfoldable pub complete : ℕ → Text → Bool → AuditFields → ℕ → ℕ → Gate → Gate
unfolding end_request record_request
complete request endpoint holds fields status latency_ms g =
    end_request request holds answered
      (record g { recorded = record_request endpoint fields status latency_ms g.recorded })

unfoldable pub admit : Text → Bool → Gate → Gate
admit endpoint holds g = record g {
  permits = g.permits - freed holds;
  in_flight = enter g.in_flight;
  requests = g.requests ++ (under_way endpoint holds ∷ []);
}

-- No permit is left: `HandleErrorLayer` answers, and the handler never sees the request.
unfoldable pub shed_request : ℕ → Text → ℕ → Gate → Gate
unfolding record_request into_response
shed_request retry_after_secs endpoint latency_ms g = record g {
  shed = g.shed + 1;
  in_flight = leave (enter g.in_flight);
  requests = g.requests ++ (answered ∷ []);
  recorded =
      record_request endpoint no_fields (into_response (overloaded retry_after_secs)).status
        latency_ms g.recorded;
}

-- A move of a request that is over, or that never came, changes nothing.
unfoldable pub step : ℕ → Gate → Move → Gate
unfolding endpoint_label place_of admit shed_request complete end_request into_response
step secs g (arrives path latency_ms) =
    if is_limited (place_of path)
    then (elim g.permits [
      | zero ↦ shed_request secs (endpoint_label path) latency_ms g
      | suc n ↦ admit (endpoint_label path) true g
    ])
    else admit (endpoint_label path) false g
step secs g (answers i fields status latency_ms) = elim (get_elem? g.requests i) [
  | some (under_way endpoint holds) ↦ complete i endpoint holds fields status latency_ms g
  | other ↦ g
]
step secs g (expires i fields latency_ms) = elim (get_elem? g.requests i) [
  | some (under_way endpoint true) ↦
      complete i endpoint true fields (into_response (overloaded secs)).status latency_ms g
  | other ↦ g
]
step secs g (leaves i) = elim (get_elem? g.requests i) [
  | some (under_way endpoint holds) ↦ end_request i holds abandoned g
  | other ↦ g
]

unfoldable pub run : ℕ → Gate → List Move → Gate
unfolding step
run secs g [] = g
run secs g (m ∷ ms) = run secs (step secs g m) ms

pub zero_or_suc : (n : ℕ) → (n ≡ 0) ⊎ ((m : ℕ) × (n ≡ suc m))
zero_or_suc zero = inl refl
zero_or_suc (suc m) = inr (m, refl)

-- A move changes nothing, sheds a request, admits one, completes one or ends an abandoned one.
pub step-cases :
    (P : Gate → Type 0) (secs : ℕ) (g : Gate) (m : Move)
    → P g
    → ((path : Text) (latency_ms : ℕ)
        → g.permits ≡ 0
        → P (shed_request secs (endpoint_label path) latency_ms g))
    → ((path : Text) (holds : Bool)
        → freed holds ≤ g.permits
        → P (admit (endpoint_label path) holds g))
    → ((i : ℕ) (endpoint : Text) (holds : Bool) (fields : AuditFields) (status latency_ms : ℕ)
        → get_elem? g.requests i ≡ some (under_way endpoint holds)
        → P (complete i endpoint holds fields status latency_ms g))
    → ((i : ℕ) (endpoint : Text) (holds : Bool)
        → get_elem? g.requests i ≡ some (under_way endpoint holds)
        → P (end_request i holds abandoned g))
    → P (step secs g m)
unfolding step
step-cases P secs g (arrives path latency_ms) same shed adm done gone =
    elim (Bool-cases (is_limited (place_of path))) [
      | inl api_path ↦ elim (zero_or_suc g.permits) [
        | inl none_left ↦ rw (api_path, step) (rw none_left (shed path latency_ms none_left))
        | inr (n, some_left) ↦
            rw (api_path, step) (rw some_left (adm path true (omega (arith, some_left))))
      ]
      | inr other ↦ rw (other, step) (adm path false (omega arith))
    ]
step-cases P secs g (answers i fields status latency_ms) same shed adm done gone =
    elim (Option-cases (get_elem? g.requests i)) [
      | inl missing ↦ rw (missing, step) same
      | inr (under_way endpoint holds, h) ↦
          rw (h, step) (done i endpoint holds fields status latency_ms h)
      | inr (answered, h) ↦ rw (h, step) same
      | inr (abandoned, h) ↦ rw (h, step) same
    ]
step-cases P secs g (expires i fields latency_ms) same shed adm done gone =
    elim (Option-cases (get_elem? g.requests i)) [
      | inl missing ↦ rw (missing, step) same
      | inr (under_way endpoint true, h) ↦
          rw (h, step)
            (done i endpoint true fields (into_response (overloaded secs)).status latency_ms h)
      | inr (under_way endpoint false, h) ↦ rw (h, step) same
      | inr (answered, h) ↦ rw (h, step) same
      | inr (abandoned, h) ↦ rw (h, step) same
    ]
step-cases P secs g (leaves i) same shed adm done gone =
    elim (Option-cases (get_elem? g.requests i)) [
      | inl missing ↦ rw (missing, step) same
      | inr (under_way endpoint holds, h) ↦ rw (h, step) (gone i endpoint holds h)
      | inr (answered, h) ↦ rw (h, step) same
      | inr (abandoned, h) ↦ rw (h, step) same
    ]

-- What each move keeps holds after all.
pub run-all :
    (P : Gate → Type 0) (secs : ℕ)
    → ((g : Gate) (m : Move) → P g → P (step secs g m))
    → (g : Gate) (ms : List Move) → P g
    → P (run secs g ms)
unfolding run
run-all P secs each g [] p = p
run-all P secs each g (m ∷ ms) p = run-all P secs each (step secs g m) ms (each g m p)
