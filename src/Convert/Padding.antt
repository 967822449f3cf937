-- ===== src/Convert/Padding.antt =====
-- An encoder with the lengths of base64, for concrete runs.
use srh_rs.Base.{ℕ, zero, suc, ◌+◌, ◌*◌, ◌/◌, ◌≡◌, refl, [], ◌∷◌, Text, length, arith}

-- An encoder's lengths, with the padding as its only letter.
abbrev pub padding : ℕ → Text
padding zero = []
padding (suc n) = 61 ∷ padding n

abbrev pub pad : Text → Text
pad t = padding ((length t + 2) / 3 * 4)

pub length-padding : (n : ℕ) → length (padding n) ≡ n
length-padding zero = refl
length-padding (suc n) = omega (arith, length-padding n)
