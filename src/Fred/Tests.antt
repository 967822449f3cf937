-- ===== src/Fred/Tests.antt =====
-- A reply of the client's adapter, charged.
use srh_rs.Base.{
  ◌∷◌, [], Text, text_eq, from_utf8_lossy, true, false, Result, ◌≡◌, refl, text, ok, err, leb,
  if◌then◌else◌, ◌-◌, ◌+◌, ◌*◌, ◌/◌, length, arith,
}
use srh_rs.Resp.{RespValue, bulk, nil, done, more}
use srh_rs.Resp
use srh_rs.Convert.{plain, charge_response_budget, serialize, response_too_large}
use srh_rs.Convert.Budget.{size}
use srh_rs.Convert.Padding.{pad, length-padding}
use srh_rs.Resp.{RedisCommand, timeout}
use srh_rs.Fred.Client.{
  ClientError, Sent, FredExecutor, transaction, not_opened, raw, queue, not_queued, is_redis_error,
  map_fred_error,
}
use srh_rs.Fred.{
  simple_string, Frame, array, frame, end, blob_string, null, fred_frame_to_resp, charge-fred_frame,
}

abbrev pair : Frame
pair = array (frame (blob_string (text "a")) (frame null end))

abbrev reply : RespValue
reply = Resp.array (more (bulk (text "a")) (more nil done))

converts : fred_frame_to_resp pair ≡ ok reply
unfolding fred_frame_to_resp
converts = refl

charge-fred_frame_example : charge_response_budget reply plain 20 ≡ (
    if leb (size (serialize pad reply plain)) 20
    then ok (20 - size (serialize pad reply plain))
    else err response_too_large)
charge-fred_frame_example =
    charge-fred_frame pad plain (λ t. length-padding ((length t + 2) / 3 * 4)) pair reply 20
      (omega arith) converts

-- A server that queues commands, and one that does not answer in time.
abbrev queues : FredExecutor → Sent → Result Frame ClientError
queues x s =
    if text_eq s.name (text "MULTI")
    then ok (simple_string (text "OK"))
    else if text_eq s.name (text "EXEC")
    then ok pair
    else ok (simple_string (text "QUEUED"))

abbrev timed_out : ClientError
timed_out = record {
  details = text "Request timed out.";
  is_timeout = true;
  display = text "Timeout Error: Request timed out.";
  is_connected = true;
}

abbrev idles : FredExecutor → Sent → Result Frame ClientError
idles x s = err timed_out

abbrev unused : FredExecutor
unused = record { sent = []; resets = 0; reset_started = false }

abbrev set_k : RedisCommand
set_k = record { name = text "SET"; args = text "k" ∷ text "v" ∷ [] }

abbrev show_nothing : RespValue → Text
show_nothing v = text "reply"

server_error : is_redis_error (text "  NOAUTH Authentication required.") ≡ true
unfolding is_redis_error
server_error = refl

client_error : map_fred_error timed_out ≡ timeout
unfolding map_fred_error
client_error = refl

executed :
    (transaction show_nothing queues unused (set_k ∷ [])).1
    ≡ ok (ok (bulk (text "a")) ∷ ok nil ∷ [])
unfolding transaction not_opened raw fred_frame_to_resp from_utf8_lossy queue not_queued
executed = refl
