-- ===== src/Base/Lists.antt =====
-- Lists measured by native numbers, under the library's names.
use Prim.Native.Nat.{ℕ, zero, suc, ◌+◌, ◌≤◌}
use mathlib.Core.Logic.{◌⊎◌, inl, inr}
use native.Mathlib.Decide.{dec_lt}
use mathlib.Core.Path.{◌≡◌, refl, ap, subst}
use mathlib.Core.List.{List, [], ◌∷◌, ◌++◌, map}
use mathlib.Core.Option.{Option, none, some}
use mathlib.Core.Bool.{Bool, true, false, ◌&&◌, ◌||◌}
use native.Mathlib.Omega.{arith}

module _ {ℓ} {A : Type ℓ} where
  abbrev pub length : List A → ℕ
  length [] = 0
  length (x ∷ xs) = suc (length xs)

  abbrev pub get_elem? : List A → ℕ → Option A
  get_elem? [] i = none
  get_elem? (x ∷ xs) zero = some x
  get_elem? (x ∷ xs) (suc i) = get_elem? xs i

  abbrev pub head? : List A → Option A
  head? [] = none
  head? (x ∷ xs) = some x

  abbrev pub take : ℕ → List A → List A
  take zero xs = []
  take (suc n) [] = []
  take (suc n) (x ∷ xs) = x ∷ take n xs

  abbrev pub any : (A → Bool) → List A → Bool
  any p [] = false
  any p (x ∷ xs) = p x || any p xs

  abbrev pub all : (A → Bool) → List A → Bool
  all p [] = true
  all p (x ∷ xs) = p x && all p xs

  pub length-append : (xs ys : List A) → length (xs ++ ys) ≡ length xs + length ys
  length-append [] ys = omega arith
  length-append (x ∷ xs) ys = omega (arith, length-append xs ys)

  abbrev pub All {κ} : (A → Type κ) → List A → Type κ
  All P [] = Unit
  All P (x ∷ xs) = P x × All P xs

module _ {ℓ κ} {A : Type ℓ} {B : Type κ} where
  pub length-map : (f : A → B) (xs : List A) → length (map f xs) ≡ length xs
  length-map f [] = refl
  length-map f (x ∷ xs) = ap suc (length-map f xs)

module _ {ℓ} {A : Type ℓ} where
  -- A write out of bounds changes nothing.
  abbrev pub set : List A → ℕ → A → List A
  set [] i v = []
  set (x ∷ xs) zero v = v ∷ xs
  set (x ∷ xs) (suc i) v = x ∷ set xs i v

  pub length-set : (xs : List A) (i : ℕ) (v : A) → length (set xs i v) ≡ length xs
  length-set [] i v = refl
  length-set (x ∷ xs) zero v = refl
  length-set (x ∷ xs) (suc i) v = ap suc (length-set xs i v)

  -- The weights of all elements.
  unfoldable pub total : (A → ℕ) → List A → ℕ
  total w [] = 0
  total w (x ∷ xs) = w x + total w xs

  pub total-append : (w : A → ℕ) (xs ys : List A) → total w (xs ++ ys) ≡ total w xs + total w ys
  unfolding total
  total-append w [] ys = omega arith
  total-append w (x ∷ xs) ys = omega (arith, total-append w xs ys)

  pub total-set :
      (w : A → ℕ) (xs : List A) (i : ℕ) (old v : A)
      → get_elem? xs i ≡ some old
      → total w (set xs i v) + w old ≡ total w xs + w v
  unfolding total
  total-set w [] i old v h = absurd (ground arith)
  total-set w (x ∷ xs) zero old v h = ground arith
  total-set w (x ∷ xs) (suc i) old v h = omega (arith, total-set w xs i old v h)

  pub get-le-total :
      (w : A → ℕ) (xs : List A) (i : ℕ) (x : A) → get_elem? xs i ≡ some x → w x ≤ total w xs
  unfolding total
  get-le-total w [] i x h = absurd (ground arith)
  get-le-total w (y ∷ xs) zero x h = ground arith
  get-le-total w (y ∷ xs) (suc i) x h = omega (arith, get-le-total w xs i x h)

  -- Elements at two places weigh no more than all of them.
  pub two-le-total :
      (w : A → ℕ) (xs : List A) (i j : ℕ) (x y : A)
      → get_elem? xs i ≡ some x
      → get_elem? xs j ≡ some y
      → (i ≡ j) ⊎ (w x + w y ≤ total w xs)
  unfolding total
  two-le-total w [] i j x y h k = absurd (ground arith)
  two-le-total w (z ∷ xs) zero zero x y h k = inl refl
  two-le-total w (z ∷ xs) zero (suc j) x y h k = inr (ground (arith, get-le-total w xs j y k))
  two-le-total w (z ∷ xs) (suc i) zero x y h k = inr (ground (arith, get-le-total w xs i x h))
  two-le-total w (z ∷ xs) (suc i) (suc j) x y h k = elim (two-le-total w xs i j x y h k) [
    | inl e ↦ inl (ap suc e)
    | inr le ↦ inr (omega arith)
  ]

  -- Whatever is weighed of something, some element weighs something.
  pub total-find :
      (w : A → ℕ) (xs : List A)
      → 1 ≤ total w xs
      → (i : ℕ) × (x : A) × (get_elem? xs i ≡ some x) × (1 ≤ w x)
  unfolding total
  total-find w [] h = absurd (omega arith)
  total-find w (x ∷ xs) h = elim (dec_lt 0 (w x)) [
    | yes p ↦ (0, x, refl, omega arith)
    | no p ↦ let (i, y, at_i, le) = total-find w xs (omega arith) in (suc i, y, at_i, le)
  ]

  pub get-set_self :
      (xs : List A) (i : ℕ) (old v : A)
      → get_elem? xs i ≡ some old
      → get_elem? (set xs i v) i ≡ some v
  get-set_self [] i old v h = absurd (ground arith)
  get-set_self (x ∷ xs) zero old v h = refl
  get-set_self (x ∷ xs) (suc i) old v h = get-set_self xs i old v h

module _ {ℓ κ} {A : Type ℓ} (P : A → Type κ) where
  pub All-append : (xs ys : List A) → All P xs → All P ys → All P (xs ++ ys)
  All-append [] ys h k = k
  All-append (x ∷ xs) ys (p, h) k = (p, All-append xs ys h k)

  pub All-set : (xs : List A) (i : ℕ) (v : A) → All P xs → P v → All P (set xs i v)
  All-set [] i v h p = tt
  All-set (x ∷ xs) zero v (q, h) p = (p, h)
  All-set (x ∷ xs) (suc i) v (q, h) p = (q, All-set xs i v h p)

  pub All-get : (xs : List A) (i : ℕ) (x : A) → All P xs → get_elem? xs i ≡ some x → P x
  All-get [] i x h e = absurd (ground arith)
  All-get (y ∷ xs) zero x (p, h) e = subst P (ground arith) p
  All-get (y ∷ xs) (suc i) x (p, h) e = All-get xs i x h e
