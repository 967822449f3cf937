-- ===== src/Fred.antt =====
-- src/adapters/fred_executor.rs: Redis replies as the client hands them over, and what they become.
-- Of the frames that RESP2 does not have only the kind is read.
pub mod Client
pub mod Transaction
pub mod Reset
mod Tests
use srh_rs.Base.{
  ℕ, zero, suc, ◌+◌, ◌-◌, ◌≤◌, ◌<◌, max, ◌≡◌, refl, ap, ◌∙◌, Bool, true, false, ◌&&◌, List, [], ◌∷◌,
  ◌++◌, Text, text, text_eq, from_utf8_lossy, Result, ok, err, ◌>>=◌, >>=-eq-ok, arith, leb,
  if◌then◌else◌, u64_mod, length, ◌*◌, ◌/◌, Bool-cases, inl, inr, subst, not,
}
use srh_rs.Resp.{
  ℤ, RespValue, RespValues, simple, bulk, int, nil, done, more, ExecError, transport, redis,
}
use srh_rs.Resp
use srh_rs.Convert.{
  max_depth, Encoding, is_base64, serialize, serialize_each, charge_response_budget,
}
use srh_rs.Convert
use srh_rs.Convert.Budget.{nesting, nesting_each, size, charge-serialize}

mutual
  pub data Frame : Type 0 where
    simple_string blob_string simple_error blob_error : Text → Frame
    number : ℤ → Frame
    null : Frame
    array : Frames → Frame
    boolean double big_number verbatim_string map_frame set_frame push hello chunked_string : Frame

  pub data Frames : Type 0 where
    end : Frames
    frame : Frame → Frames → Frames

unfoldable pub protocol_violation : Text → ExecError
protocol_violation message = transport (text "Redis protocol violation: " ++ message)

-- `String::from_utf8`: bytes are UTF-8 exactly if nothing in them is replaced.
simple_of : Text → Result RespValue ExecError
unfolding protocol_violation
simple_of data_ =
    if text_eq (from_utf8_lossy data_) data_
    then ok (simple data_)
    else err (protocol_violation (text "non-UTF-8 RESP2 simple string"))

unfoldable mutual
  unfolding protocol_violation simple_of

  pub frame_within_depth : Frame → ℕ → Result RespValue ExecError
  frame_within_depth f zero = err Resp.response_too_large
  frame_within_depth (simple_string s) (suc depth) = simple_of s
  frame_within_depth (blob_string s) (suc depth) = ok (bulk s)
  frame_within_depth (number n) (suc depth) = ok (int n)
  frame_within_depth null (suc depth) = ok nil
  frame_within_depth (array fs) (suc depth) =
      frames_within_depth fs depth >>= λ vs. ok (Resp.array vs)
  frame_within_depth (simple_error s) (suc depth) = err (redis s)
  frame_within_depth (blob_error s) (suc depth) = err (redis (from_utf8_lossy s))
  frame_within_depth boolean (suc depth) =
      err (protocol_violation (text "unexpected RESP3 boolean"))
  frame_within_depth double (suc depth) = err (protocol_violation (text "unexpected RESP3 double"))
  frame_within_depth big_number (suc depth) =
      err (protocol_violation (text "unexpected RESP3 big number"))
  frame_within_depth verbatim_string (suc depth) =
      err (protocol_violation (text "unexpected RESP3 verbatim string"))
  frame_within_depth map_frame (suc depth) = err (protocol_violation (text "unexpected RESP3 map"))
  frame_within_depth set_frame (suc depth) = err (protocol_violation (text "unexpected RESP3 set"))
  frame_within_depth push (suc depth) = err (protocol_violation (text "unexpected RESP3 push"))
  frame_within_depth hello (suc depth) = err (protocol_violation (text "unexpected RESP3 hello"))
  frame_within_depth chunked_string (suc depth) =
      err (protocol_violation (text "unexpected RESP3 chunked string"))

  pub frames_within_depth : Frames → ℕ → Result RespValues ExecError
  frames_within_depth end depth = ok done
  frames_within_depth (frame f fs) depth =
      frame_within_depth f depth >>= λ v. frames_within_depth fs depth >>= λ vs. ok (more v vs)

unfoldable pub fred_frame_to_resp : Frame → Result RespValue ExecError
unfolding frame_within_depth
fred_frame_to_resp f = frame_within_depth f max_depth

module _ (encode : Text → Text) (e : Encoding) where
  abbrev levels : RespValue → ℕ
  levels v = nesting (serialize encode v e)

  abbrev levels_each : RespValues → ℕ
  levels_each vs = nesting_each (serialize_each encode vs e)

  simple-levels : (s : Text) → levels (simple s) ≡ 1
  unfolding nesting serialize
  simple-levels s = elim (Bool-cases (is_base64 e && not (text_eq s (text "OK")))) [
    | inl t ↦ rw t refl
    | inr t ↦ rw t refl
  ]

  bulk-levels : (s : Text) → levels (bulk s) ≡ 1
  unfolding nesting serialize
  bulk-levels s = elim (Bool-cases (is_base64 e)) [ inl t ↦ rw t refl | inr t ↦ rw t refl ]

  -- The levels of a result that is known.
  levels_of_ok :
      (w v : RespValue) (d : ℕ)
      → ◌≡◌ {A = Result RespValue ExecError} (ok w) (ok v)
      → levels w ≤ d
      → levels v ≤ d
  levels_of_ok w v d h few = subst (λ x. levels x ≤ d) (ground arith) few

  levels_each_of_ok :
      (ws vs : RespValues) (d : ℕ)
      → ◌≡◌ {A = Result RespValues ExecError} (ok ws) (ok vs)
      → levels_each ws ≤ d
      → levels_each vs ≤ d
  levels_each_of_ok ws vs d h few = subst (λ x. levels_each x ≤ d) (ground arith) few

  simple-nesting : (s : Text) (v : RespValue) (d : ℕ) → simple_of s ≡ ok v → levels v ≤ suc d
  unfolding simple_of
  simple-nesting s v d h = elim (Bool-cases (text_eq (from_utf8_lossy s) s)) [
    | inl t ↦ levels_of_ok (simple s) v (suc d) (ground arith) (omega (arith, simple-levels s))
    | inr t ↦ absurd (ground arith)
  ]

  mutual
    unfolding frame_within_depth frames_within_depth nesting nesting_each serialize serialize_each

    frame-nesting :
        (f : Frame) (d : ℕ) (v : RespValue)
        → frame_within_depth f d ≡ ok v
        → nesting (serialize encode v e) ≤ d
    frame-nesting f zero v h = absurd (ground arith)
    frame-nesting (simple_string s) (suc d) v h = simple-nesting s v d h
    frame-nesting (blob_string s) (suc d) v h =
        levels_of_ok (bulk s) v (suc d) h (omega (arith, bulk-levels s))
    frame-nesting (number n) (suc d) v h = levels_of_ok (int n) v (suc d) h (omega arith)
    frame-nesting null (suc d) v h = levels_of_ok nil v (suc d) h (omega arith)
    frame-nesting (array fs) (suc d) v h =
        let (vs, all, made) = >>=-eq-ok (frames_within_depth fs d) _ h in
        let deep = frames-nesting fs d vs all in
        levels_of_ok (Resp.array vs) v (suc d) made (omega (arith, deep))
    frame-nesting (simple_error s) (suc d) v h = absurd (ground arith)
    frame-nesting (blob_error s) (suc d) v h = absurd (ground arith)
    frame-nesting boolean (suc d) v h = absurd (ground arith)
    frame-nesting double (suc d) v h = absurd (ground arith)
    frame-nesting big_number (suc d) v h = absurd (ground arith)
    frame-nesting verbatim_string (suc d) v h = absurd (ground arith)
    frame-nesting map_frame (suc d) v h = absurd (ground arith)
    frame-nesting set_frame (suc d) v h = absurd (ground arith)
    frame-nesting push (suc d) v h = absurd (ground arith)
    frame-nesting hello (suc d) v h = absurd (ground arith)
    frame-nesting chunked_string (suc d) v h = absurd (ground arith)

    frames-nesting :
        (fs : Frames) (d : ℕ) (vs : RespValues)
        → frames_within_depth fs d ≡ ok vs
        → nesting_each (serialize_each encode vs e) ≤ d
    frames-nesting end d vs h = levels_each_of_ok done vs d h (omega arith)
    frames-nesting (frame f fs) d vs h =
        let (v, first, h1) = >>=-eq-ok (frame_within_depth f d) _ h in
        let (vs', rest, made) = >>=-eq-ok (frames_within_depth fs d) _ h1 in
        let a = frame-nesting f d v first in
        let b = frames-nesting fs d vs' rest in
        levels_each_of_ok (more v vs') vs d made (omega (arith, a, b))

  -- A reply that the client's adapter lets through is refused by the response budget only for its
  -- size, never for its nesting: both bounds are the same. The encoder is one that pads to groups of
  -- four, and the budget is below 2^64.
  pub charge-fred_frame :
      ((t : Text) → length (encode t) ≡ (length t + 2) / 3 * 4)
      → (f : Frame) (v : RespValue) (budget : ℕ) → budget < u64_mod
      → fred_frame_to_resp f ≡ ok v
      → charge_response_budget v e budget ≡ (
          if leb (size (serialize encode v e)) budget
          then ok (budget - size (serialize encode v e))
          else err Convert.response_too_large)
  unfolding fred_frame_to_resp
  charge-fred_frame length-encode f v budget small h =
      let shallow = frame-nesting f max_depth v h in
      charge-serialize encode length-encode v e budget small ∙ ground (arith, shallow)
