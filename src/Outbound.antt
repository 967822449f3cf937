-- ===== src/Outbound.antt =====
-- src/adapters/outbound_http.rs: a request to another service. The client, what it reports, and how a
-- status is written are parameters; an exchange that does not end within the deadline is `late`.
pub mod Introspect
pub mod Tests
use srh_rs.Base.{
  ℕ, ◌≤◌, ◌<◌, ◌≡◌, refl, Bool, true, false, ◌&&◌, ◌++◌, Option, none, some, Text, text, Result, ok,
  err, ◌>>=◌, >>=-eq-ok, length, leb, ltb, ◌==◌, if◌then◌else◌, arith, Bool-cases, inl, inr,
}

-- A body that arrives whole, or why it does not.
pub data Body : Type 0 where
  whole cut : Text → Body

pub data Exchange : Type 0 where
  late : Exchange
  failed : Text → Exchange
  answered : (status : ℕ) → Body → Exchange

-- The error of `Limited`.
pub record Wording : Type 0 where
  pub show_status : ℕ → Text
  pub over_limit : Text

-- `is_success` and `is_redirection`.
abbrev pub is_success : ℕ → Bool
is_success status = leb 200 status && ltb status 300

abbrev pub is_redirection : ℕ → Bool
is_redirection status = leb 300 status && ltb status 400

module _ (w : Wording) where
  unfoldable pub reason_of : ℕ → Text
  reason_of status =
      if is_redirection status
      then text "redirects are not followed"
      else if status == 429
      then text "remote service rate limited the request"
      else text "remote service returned an error"

  unfoldable pub require_success : ℕ → Result (Unit {0}) Text
  unfolding reason_of
  require_success status =
      if is_success status
      then ok tt
      else err (reason_of status ++ (text ": HTTP " ++ w.show_status status))

  -- `Limited::collect`.
  unfoldable pub collect : Body → ℕ → Result Text Text
  collect (whole body) max_response_bytes =
      if leb (length body) max_response_bytes
      then ok body
      else err (text "outbound HTTP response body failed: " ++ w.over_limit)
  collect (cut error) max_response_bytes =
      err (text "outbound HTTP response body failed: " ++ error)

  unfoldable pub request_bytes : Exchange → ℕ → Result Text Text
  unfolding require_success collect
  request_bytes late max_response_bytes = err (text "outbound HTTP request timed out")
  request_bytes (failed error) max_response_bytes =
      err (text "outbound HTTP request failed: " ++ error)
  request_bytes (answered status body) max_response_bytes =
      require_success status >>= λ u. collect body max_response_bytes

  -- What a request gives is the whole body of a successful answer, within the limit.
  pub request_bytes-eq-ok :
      (x : Exchange) (limit : ℕ) (body : Text)
      → request_bytes x limit ≡ ok body
      → (status : ℕ) × (x ≡ answered status (whole body))
        × (is_success status ≡ true)
        × (length body ≤ limit)
  unfolding request_bytes require_success collect
  request_bytes-eq-ok late limit body h = absurd (ground arith)
  request_bytes-eq-ok (failed error) limit body h = absurd (ground arith)
  request_bytes-eq-ok (answered status (whole t)) limit body h =
      (status, ground arith, ground arith, ground arith)
  request_bytes-eq-ok (answered status (cut e)) limit body h = absurd (ground arith)
