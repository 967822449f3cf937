-- ===== src/Failure.antt =====
-- src/error.rs: the errors of a request and the responses they become; and the labels of
-- src/http/observability.rs.
mod Tests
use srh_rs.Base.{
  ℕ, Bool, true, false, ◌||◌, ◌==◌, ◌≡◌, ◌≢◌, ◌↔◌, ◌⊎◌, inl, inr, refl, Option, none, some, Text,
  text, text_eq, text_eq_iff, is_some, if◌then◌else◌, arith,
}
use srh_rs.Acl.{AclError, invalid_command, forbidden}
use srh_rs.Convert.{ConversionError}

pub data AppError : Type 0 where
  unauthorized : AppError
  forbids : Text → AppError
  bad_request : Text → AppError
  redis_error : Text → AppError
  rate_limited : (retry_after_secs : ℕ) → AppError
  auth_service_unavailable : AppError
  overloaded : (retry_after_secs : ℕ) → AppError
  pool_open : (retry_after_secs : ℕ) (reason : Text) → AppError
  response_too_large : AppError
  request_body_timeout : AppError
  internal : Text → AppError

unfoldable pub from_conversion : ConversionError → AppError
from_conversion ConversionError.invalid_command = bad_request (text "Invalid command")
from_conversion ConversionError.response_too_large = response_too_large

unfoldable pub from_acl : AclError → AppError
from_acl AclError.invalid_command = bad_request (text "Invalid command")
from_acl (forbidden message) = forbids message

-- The status, the `error` field of the body and the `Retry-After` header.
pub record Response : Type 0 where
  pub status : ℕ
  pub message : Text
  pub retry_after : Option ℕ

abbrev pub respond : ℕ → Text → Option ℕ → Response
respond status message retry_after = record {
  status = status;
  message = message;
  retry_after = retry_after;
}

unfoldable pub into_response : AppError → Response
into_response unauthorized = respond 401 (text "Unauthorized") none
into_response (forbids message) = respond 403 message none
into_response (bad_request message) = respond 400 message none
into_response (redis_error message) = respond 400 message none
into_response (rate_limited secs) = respond 429 (text "Rate limit exceeded") (some secs)
into_response auth_service_unavailable =
    respond 503 (text "Authentication service unavailable") none
into_response (overloaded secs) = respond 503 (text "Server overloaded") (some secs)
into_response (pool_open secs reason) = respond 503 (text "Backend unavailable") (some secs)
into_response response_too_large = respond 502 (text "Response too large") none
into_response request_body_timeout = respond 408 (text "Request body timeout") none
into_response (internal error) = respond 500 (text "Internal server error") none

unfoldable pub status_label : ℕ → Text
status_label status =
    if status == 200
    then text "200"
    else if status == 400
    then text "400"
    else if status == 401
    then text "401"
    else if status == 403
    then text "403"
    else if status == 404
    then text "404"
    else if status == 405
    then text "405"
    else if status == 408
    then text "408"
    else if status == 413
    then text "413"
    else if status == 429
    then text "429"
    else if status == 500
    then text "500"
    else if status == 502
    then text "502"
    else if status == 503
    then text "503"
    else text "other"

unfoldable pub is_probe : Text → Bool
is_probe endpoint = text_eq endpoint (text "/health") || text_eq endpoint (text "/ready")

unfoldable pub endpoint_label : Text → Text
endpoint_label path =
    if text_eq path (text "/")
    then text "/"
    else if text_eq path (text "/pipeline")
    then text "/pipeline"
    else if text_eq path (text "/multi-exec")
    then text "/multi-exec"
    else if text_eq path (text "/health")
    then text "/health"
    else if text_eq path (text "/ready")
    then text "/ready"
    else text "other"

-- No error of a request is counted under the metric label `other`: each status has its own label.
pub status_label-into_response :
    (e : AppError) → status_label (into_response e).status ≢ text "other"
unfolding status_label into_response
status_label-into_response unauthorized h = ground arith
status_label-into_response (forbids m) h = ground arith
status_label-into_response (bad_request m) h = ground arith
status_label-into_response (redis_error m) h = ground arith
status_label-into_response (rate_limited n) h = ground arith
status_label-into_response auth_service_unavailable h = ground arith
status_label-into_response (overloaded n) h = ground arith
status_label-into_response (pool_open n m) h = ground arith
status_label-into_response response_too_large h = ground arith
status_label-into_response request_body_timeout h = ground arith
status_label-into_response (internal m) h = ground arith

-- A request is labelled as a probe exactly if its path is.
is_probe-endpoint_label : (path : Text) → is_probe (endpoint_label path) ≡ is_probe path
unfolding is_probe endpoint_label text_eq
is_probe-endpoint_label path = ground (
  arith,
  text_eq_iff path (text "/"),
  text_eq_iff path (text "/health"),
  text_eq_iff path (text "/ready"),
  text_eq_iff path (text "/pipeline"),
  text_eq_iff path (text "/multi-exec"),
)
