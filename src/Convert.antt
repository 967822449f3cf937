-- ===== src/Convert.antt =====
-- src/domain/convert.rs: what a Redis reply costs of the response budget, and the JSON it is written
-- as. `usize` has 64 bits. The budget is passed on; after an error no caller reads it.
pub mod Budget
pub mod Padding
mod Tests
use srh_rs.Base.{
  ℕ, zero, suc, ◌+◌, ◌-◌, ◌*◌, ◌/◌, Bool, true, false, not, ◌&&◌, Text, text, text_eq, length, leb,
  ltb, if◌then◌else◌, u64_mod, Result, ok, err, ◌>>=◌, ok_or, Option, none, some, from_utf8_lossy,
}
use srh_rs.Resp.{ℤ, RespValue, RespValues, simple, bulk, int, nil, array, done, more}

abbrev pub node_cost : ℕ
node_cost = 8

abbrev pub max_depth : ℕ
max_depth = 64

pub data Encoding : Type 0 where
  plain base64 : Encoding

pub data ConversionError : Type 0 where
  invalid_command response_too_large : ConversionError

abbrev pub is_base64 : Encoding → Bool
is_base64 plain = false
is_base64 base64 = true

-- `usize::checked_add`, `checked_mul` and `checked_sub`.
abbrev pub checked : ℕ → Option ℕ
checked n = if ltb n u64_mod then some n else none

abbrev pub checked_sub : ℕ → ℕ → Option ℕ
checked_sub a b = if leb b a then some (a - b) else none

four_times : Option ℕ → Option ℕ
four_times none = none
four_times (some groups) = checked (groups * 4)

third : Option ℕ → Option ℕ
third none = none
third (some padded) = some (padded / 3)

unfoldable pub base64_encoded_len : ℕ → Result ℕ ConversionError
unfolding four_times third
base64_encoded_len input_len =
    ok_or (four_times (third (checked (input_len + 2)))) response_too_large

unfoldable pub charge : ℕ → ℕ → Result ℕ ConversionError
charge budget amount = ok_or (checked_sub budget amount) response_too_large

-- The depth check and the node's own cost; what is left of both.
unfoldable pub enter : ℕ → ℕ → Result (ℕ × ℕ) ConversionError
unfolding charge
enter budget zero = err response_too_large
enter budget (suc depth) = charge budget node_cost >>= λ left. ok (left, depth)

-- A text that is written in base64, or as it is.
unfoldable pub charge_text : Bool → ℕ → Text → Text → Result ℕ ConversionError
unfolding charge base64_encoded_len
charge_text encoded budget raw shown =
    if encoded
    then (base64_encoded_len (length raw) >>= λ n. charge budget n)
    else charge budget (length shown)

unfoldable mutual
  unfolding enter charge_text

  pub charge_within_depth : RespValue → Encoding → ℕ → ℕ → Result ℕ ConversionError
  charge_within_depth (simple s) e budget depth = enter budget depth >>= λ left.
      charge_text (is_base64 e && not (text_eq s (text "OK"))) left.0 s s
  charge_within_depth (bulk s) e budget depth =
      enter budget depth >>= λ left. charge_text (is_base64 e) left.0 s (from_utf8_lossy s)
  charge_within_depth (int n) e budget depth = enter budget depth >>= λ left. ok left.0
  charge_within_depth nil e budget depth = enter budget depth >>= λ left. ok left.0
  charge_within_depth (array vs) e budget depth =
      enter budget depth >>= λ left. charge_each vs e left.0 left.1

  pub charge_each : RespValues → Encoding → ℕ → ℕ → Result ℕ ConversionError
  charge_each done e budget depth = ok budget
  charge_each (more v vs) e budget depth =
      charge_within_depth v e budget depth >>= λ left. charge_each vs e left depth

unfoldable pub charge_response_budget : RespValue → Encoding → ℕ → Result ℕ ConversionError
unfolding charge_within_depth
charge_response_budget v e budget = charge_within_depth v e budget max_depth

-- What the serializer is told to write.
mutual
  pub data Json : Type 0 where
    string : Text → Json
    number : ℤ → Json
    null : Json
    sequence : Jsons → Json

  pub data Jsons : Type 0 where
    end : Jsons
    element : Json → Jsons → Jsons

-- `encode` is the `base64` package's standard encoding.
module _ (encode : Text → Text) where
  unfoldable mutual
    pub serialize : RespValue → Encoding → Json
    serialize (simple s) e =
        if is_base64 e && not (text_eq s (text "OK")) then string (encode s) else string s
    serialize (bulk s) e = if is_base64 e then string (encode s) else string (from_utf8_lossy s)
    serialize (int n) e = number n
    serialize nil e = null
    serialize (array vs) e = sequence (serialize_each vs e)

    pub serialize_each : RespValues → Encoding → Jsons
    serialize_each done e = end
    serialize_each (more v vs) e = element (serialize v e) (serialize_each vs e)
