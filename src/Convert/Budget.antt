-- ===== src/Convert/Budget.antt =====
-- src/domain/convert.rs: the budget is charged exactly for the JSON that is written.
use srh_rs.Base.{
  ℕ, zero, suc, ◌+◌, ◌-◌, ◌*◌, ◌/◌, ◌≤◌, ◌<◌, max, ◌≡◌, ap, ◌∙◌, sym, Bool, true, false, not, ◌&&◌,
  Text, text, text_eq, length, leb, if◌then◌else◌, u64_mod, Result, ok, err, ◌>>=◌, from_utf8_lossy,
  arith, inl, inr, Bool-cases,
}
use srh_rs.Resp.{RespValue, RespValues, simple, bulk, int, nil, array, done, more}
use srh_rs.Convert.{
  node_cost, max_depth, Encoding, ConversionError, response_too_large, is_base64,
  base64_encoded_len, charge, enter, charge_text, charge_within_depth, charge_each,
  charge_response_budget, Json, string, number, null, sequence, Jsons, end, element, serialize,
  serialize_each,
}

-- The size of a JSON value: eight for each node, and the bytes of its strings.
unfoldable mutual
  pub size : Json → ℕ
  size (string s) = node_cost + length s
  size (number n) = node_cost
  size null = node_cost
  size (sequence js) = node_cost + size_each js

  pub size_each : Jsons → ℕ
  size_each end = 0
  size_each (element j js) = size j + size_each js

-- The nesting of a JSON value, of which a scalar has one.
unfoldable mutual
  pub nesting : Json → ℕ
  nesting (string s) = 1
  nesting (number n) = 1
  nesting null = 1
  nesting (sequence js) = suc (nesting_each js)

  pub nesting_each : Jsons → ℕ
  nesting_each end = 0
  nesting_each (element j js) = max (nesting j) (nesting_each js)

-- What is left of a budget, if a size and a nesting fit in it.
unfoldable pub spend : ℕ → ℕ → ℕ → ℕ → Result ℕ ConversionError
spend budget depth size nesting =
    if leb size budget && leb nesting depth then ok (budget - size) else err response_too_large

base64_len :
    (n budget : ℕ)
    → budget < u64_mod
    → (base64_encoded_len n >>= λ m. charge budget m) ≡ charge budget ((n + 2) / 3 * 4)
unfolding base64_encoded_len charge
base64_len n budget small = ground arith

charge_amount : (budget amount depth : ℕ) → charge budget amount ≡ spend budget depth amount 0
unfolding charge spend
charge_amount budget amount depth = ground arith

spend_none : (budget depth : ℕ) → ok budget ≡ spend budget depth 0 0
unfolding spend
spend_none budget depth = ground arith

-- After the node's own cost, what the content spends.
enter_then :
    (budget depth : ℕ) (next : ℕ × ℕ → Result ℕ ConversionError) (cost levels : ℕ)
    → ((b d : ℕ) → b ≤ budget → next (b, d) ≡ spend b d cost levels)
    → (enter budget depth >>= next) ≡ spend budget depth (node_cost + cost) (suc levels)
unfolding enter spend charge
enter_then budget zero next cost levels h = ground arith
enter_then budget (suc d) next cost levels h = ground (arith, h (budget - node_cost) d)

then_each :
    (budget depth s n s' n' : ℕ) (next : ℕ → Result ℕ ConversionError)
    → ((b : ℕ) → b ≤ budget → next b ≡ spend b depth s' n')
    → (spend budget depth s n >>= next) ≡ spend budget depth (s + s') (max n n')
unfolding spend
then_each budget depth s n s' n' next h = ground (arith, h (budget - s))

module _ (encode : Text → Text)
    (length-encode : (t : Text) → length (encode t) ≡ (length t + 2) / 3 * 4) where
  written : Bool → Text → Text → Json
  written encoded raw shown = if encoded then string (encode raw) else string shown

  written-charge :
      (encoded : Bool) (b d : ℕ) (raw shown : Text)
      → b < u64_mod
      → charge_text encoded b raw shown
        ≡ spend b d (length (if encoded then encode raw else shown)) 0
  unfolding charge_text
  written-charge true b d raw shown small =
      base64_len (length raw) b small
      ∙ (ap (charge b) (sym (length-encode raw)) ∙ charge_amount b (length (encode raw)) d)
  written-charge false b d raw shown small = charge_amount b (length shown) d

  mutual
    unfolding charge_within_depth charge_each serialize serialize_each size size_each nesting
        nesting_each

    charge_value :
        (v : RespValue) (e : Encoding) (b d : ℕ)
        → b < u64_mod
        → charge_within_depth v e b d
          ≡ spend b d (size (serialize encode v e)) (nesting (serialize encode v e))
    charge_value (simple s) e b d small =
        elim (Bool-cases (is_base64 e && not (text_eq s (text "OK")))) [
          | inl t ↦ rw t (
              enter_then b d _ (length (encode s)) 0
                (λ b' d' less. written-charge true b' d' s s (omega arith)))
          | inr t ↦ rw t (
              enter_then b d _ (length s) 0
                (λ b' d' less. written-charge false b' d' s s (omega arith)))
        ]
    charge_value (bulk s) e b d small = elim (Bool-cases (is_base64 e)) [
      | inl t ↦ rw t (
          enter_then b d _ (length (encode s)) 0
            (λ b' d' less. written-charge true b' d' s (from_utf8_lossy s) (omega arith)))
      | inr t ↦ rw t (
          enter_then b d _ (length (from_utf8_lossy s)) 0
            (λ b' d' less. written-charge false b' d' s (from_utf8_lossy s) (omega arith)))
    ]
    charge_value (int n) e b d small = enter_then b d _ 0 0 (λ b' d' less. spend_none b' d')
    charge_value nil e b d small = enter_then b d _ 0 0 (λ b' d' less. spend_none b' d')
    charge_value (array vs) e b d small =
        enter_then b d _ (size_each (serialize_each encode vs e))
          (nesting_each (serialize_each encode vs e))
          (λ b' d' less. charge_values vs e b' d' (omega arith))

    charge_values :
        (vs : RespValues) (e : Encoding) (b d : ℕ)
        → b < u64_mod
        → charge_each vs e b d
          ≡ spend b d
              (size_each (serialize_each encode vs e))
              (nesting_each (serialize_each encode vs e))
    charge_values done e b d small = spend_none b d
    charge_values (more v vs) e b d small =
        ap (λ r. r >>= (λ left. charge_each vs e left d)) (charge_value v e b d small)
        ∙ then_each b d _ _ _ _ (λ left. charge_each vs e left d)
            (λ b' less. charge_values vs e b' d (omega arith))

  -- The response budget, of fewer than 2^64 bytes, is charged exactly for the JSON that the
  -- serializer then writes: eight for each value and the bytes of every string. A reply whose JSON
  -- is larger than the budget, or nested more than 64 deep, is refused as too large and nothing
  -- else is. The base64 encoder is one that pads to groups of four.
  pub charge-serialize :
      (v : RespValue) (e : Encoding) (budget : ℕ)
      → budget < u64_mod
      → charge_response_budget v e budget ≡ (
          if leb (size (serialize encode v e)) budget
            && leb (nesting (serialize encode v e)) max_depth
          then ok (budget - size (serialize encode v e))
          else err response_too_large)
  unfolding charge_response_budget spend
  charge-serialize v e budget small = charge_value v e budget max_depth small
