-- ===== src/Failure/Tests.antt =====
-- src/error.rs and src/http/observability.rs at a concrete error.
use srh_rs.Base.{◌≡◌, refl, text}
use srh_rs.Failure.{into_response, rate_limited, status_label}

too_many_requests : status_label (into_response (rate_limited 3)).status ≡ text "429"
unfolding into_response status_label
too_many_requests = refl
