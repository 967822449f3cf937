-- ===== src/RateLimit/Whole.antt =====
-- Whole tokens in place of `f64`: an instance of the limiter's arithmetic for concrete runs.
use srh_rs.Base.{
  ℕ, ◌+◌, ◌-◌, ◌*◌, ◌/◌, ◌≤◌, ◌≡◌, refl, min, Bool, true, false, leb, ltb, if◌then◌else◌, u64_mod,
  arith,
}
use srh_rs.Resp.{ℤ, pos, negsuc}
use srh_rs.RateLimit.Floats.{Float}

abbrev le : ℤ → ℤ → Bool
le (pos a) (pos b) = leb a b
le (pos a) (negsuc b) = false
le (negsuc a) (pos b) = true
le (negsuc a) (negsuc b) = leb b a

abbrev lt : ℤ → ℤ → Bool
lt (pos a) (pos b) = ltb a b
lt (pos a) (negsuc b) = false
lt (negsuc a) (pos b) = true
lt (negsuc a) (negsuc b) = ltb b a

abbrev difference : ℕ → ℕ → ℤ
difference a b = if leb b a then pos (a - b) else negsuc (b - a - 1)

abbrev plus : ℤ → ℤ → ℤ
plus (pos a) (pos b) = pos (a + b)
plus (pos a) (negsuc b) = difference a (b + 1)
plus (negsuc a) (pos b) = difference b (a + 1)
plus (negsuc a) (negsuc b) = negsuc (a + b + 1)

abbrev negate : ℤ → ℤ
negate (pos a) = difference 0 a
negate (negsuc a) = pos (a + 1)

abbrev minus : ℤ → ℤ → ℤ
minus (pos a) (pos b) = difference a b
minus (negsuc a) (pos b) = negsuc (a + b)
minus a (negsuc b) = plus a (pos (b + 1))

abbrev times : ℤ → ℤ → ℤ
times (pos a) (pos b) = pos (a * b)
times a b = pos 0

-- Rounded up, so that `ceil` has nothing to do.
abbrev over : ℤ → ℤ → ℤ
over (pos a) (pos b) = pos ((a + b - 1) / b)
over a b = pos 0

abbrev to_u64 : ℤ → ℕ
to_u64 (pos n) = min n (u64_mod - 1)
to_u64 (negsuc n) = 0

pub le_refl : (x : ℤ) → le x x ≡ true
le_refl (pos a) = ground arith
le_refl (negsuc a) = ground arith

pub minimum-le : (x : ℤ) (n : ℕ) → le (if le x (pos n) then x else pos n) (pos n) ≡ true
minimum-le (pos a) n = ground arith
minimum-le (negsuc a) n = refl

pub minus-le : (x : ℤ) (n k : ℕ) → le x (pos n) ≡ true → le (minus x (pos k)) (pos n) ≡ true
minus-le (pos a) n k h = ground arith
minus-le (negsuc a) n k h = refl

pub maximum-to_u64 : (x : ℤ) → 1 ≤ to_u64 (if le x (pos 1) then pos 1 else x)
maximum-to_u64 (pos a) = ground arith
maximum-to_u64 (negsuc a) = ground arith

abbrev pub whole_tokens : Float
whole_tokens = record {
  F = ℤ;
  of_nat = pos;
  secs = λ n. pos (n / 1000000000);
  zero = pos 0;
  plus = plus;
  minus = minus;
  times = times;
  over = over;
  negate = negate;
  minimum = λ x y. if le x y then x else y;
  maximum = λ x y. if le x y then y else x;
  ceil = λ x. x;
  to_u64 = to_u64;
  lt = lt;
  le = le;
  minimum-le = minimum-le;
  minus-le = minus-le;
  le_refl_nat = λ n. le_refl (pos n);
  maximum-to_u64 = maximum-to_u64;
}
