-- ===== src/Convert/Tests.antt =====
-- A reply with a nested array, charged and written.
use srh_rs.Base.{
  ◌-◌, text_eq, from_utf8_lossy, ◌+◌, ◌*◌, ◌/◌, ◌≡◌, refl, text, length, leb, if◌then◌else◌, ok,
  err, arith, ◌&&◌,
}
use srh_rs.Resp.{RespValue, simple, bulk, nil, array, done, more}
use srh_rs.Convert.{base64, plain, response_too_large, max_depth, charge_response_budget, serialize}
use srh_rs.Convert.Padding.{pad, length-padding}
use srh_rs.Convert.Budget.{size, nesting, charge-serialize}

abbrev reply : RespValue
reply =
    array
      (more (simple (text "OK")) (more (bulk (text "four")) (more (array (more nil done)) done)))

charged_base64 : charge_response_budget reply base64 100 ≡ ok 50
unfolding charge_response_budget text_eq
charged_base64 = refl

charged_plain : charge_response_budget reply plain 45 ≡ err response_too_large
unfolding charge_response_budget from_utf8_lossy
charged_plain = refl

charge-serialize_example : charge_response_budget reply base64 100 ≡ (
    if leb (size (serialize pad reply base64)) 100
      && leb (nesting (serialize pad reply base64)) max_depth
    then ok (100 - size (serialize pad reply base64))
    else err response_too_large)
charge-serialize_example =
    charge-serialize pad (λ t. length-padding ((length t + 2) / 3 * 4)) reply base64 100
      (omega arith)
