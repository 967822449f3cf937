-- ===== src/RateLimit/Floats.antt =====
-- `f64` as the rate limiter uses it: its operations, and the few facts about them that the proofs
-- use. They hold of IEEE 754 doubles; numbers that stand for `as f64` conversions are finite.
use srh_rs.Base.{ℕ, ◌≤◌, ◌≡◌, Bool, true}

pub record Float : Type 1 where
  pub F : Type 0
  -- `n as f64`.
  pub of_nat : ℕ → F
  -- `Duration::as_secs_f64`, of nanoseconds.
  pub secs : ℕ → F
  pub zero : F
  pub plus : F → F → F
  pub minus : F → F → F
  pub times : F → F → F
  pub over : F → F → F
  pub negate : F → F
  pub minimum : F → F → F
  pub maximum : F → F → F
  pub ceil : F → F
  -- `as u64`, which saturates.
  pub to_u64 : F → ℕ
  pub lt : F → F → Bool
  pub le : F → F → Bool
  pub minimum-le : (x : F) (n : ℕ) → le (minimum x (of_nat n)) (of_nat n) ≡ true
  pub minus-le :
      (x : F) (n k : ℕ) → le x (of_nat n) ≡ true → le (minus x (of_nat k)) (of_nat n) ≡ true
  pub le_refl_nat : (n : ℕ) → le (of_nat n) (of_nat n) ≡ true
  pub maximum-to_u64 : (x : F) → 1 ≤ to_u64 (maximum x (of_nat 1))
