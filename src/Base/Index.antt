-- ===== src/Base/Index.antt =====
-- `BTreeMap<u64, _>`, as a list in ascending order of its keys, so that `pop_first` takes the head.
use Prim.Native.Nat.{ℕ, ◌<◌, ◌≤◌}
use mathlib.Core.Path.{◌≡◌, refl}
use mathlib.Core.Option.{Option, none, some}
use mathlib.Core.List.{List, [], ◌∷◌}
use native.Mathlib.Omega.{arith}
use srh_rs.Base.Tests.{ltb, ◌==◌, if◌then◌else◌}

abbrev pub Index {ℓ} : Type ℓ → Type ℓ
Index V = List (ℕ × V)

module _ {ℓ} {V : Type ℓ} where
  unfoldable pub get : ℕ → Index V → Option V
  get k [] = none
  get k ((j, v) ∷ m) = if j == k then some v else get k m

  unfoldable pub put : ℕ → V → Index V → Index V
  put k v [] = (k, v) ∷ []
  put k v ((j, w) ∷ m) =
      let rest = put k v m in
      if ltb k j then (k, v) ∷ (j, w) ∷ m else if j == k then (k, v) ∷ m else (j, w) ∷ rest

  unfoldable pub delete : ℕ → Index V → Index V
  delete k [] = []
  delete k ((j, w) ∷ m) = let rest = delete k m in if j == k then m else (j, w) ∷ rest

  -- Every key is above `n`, and they ascend.
  abbrev pub Above : ℕ → Index V → Type 0
  Above n [] = Unit {0}
  Above n ((j, v) ∷ m) = (n < j) × Above j m

  abbrev pub IsAscending : Index V → Type 0
  IsAscending [] = Unit {0}
  IsAscending ((j, v) ∷ m) = Above j m

  Above-mono : (n k : ℕ) (m : Index V) → n ≤ k → Above k m → Above n m
  Above-mono n k [] h a = tt
  Above-mono n k ((j, v) ∷ m) h (lt, a) = (omega arith, a)

  get-Above : (n k : ℕ) (m : Index V) → Above n m → k ≤ n → get k m ≡ none
  unfolding get
  get-Above n k [] a h = refl
  get-Above n k ((j, v) ∷ m) (lt, a) h = ground (arith, get-Above j k m a)

  get-put-Above :
      (n k i : ℕ) (v : V) (m : Index V)
      → Above n m
      → get i (put k v m) ≡ (if k == i then some v else get i m)
  unfolding get put
  get-put-Above n k i v [] a = refl
  get-put-Above n k i v ((j, w) ∷ m) (lt, a) =
      ground (arith, get-put-Above j k i v m a, get-Above j i m a)

  get-delete-Above :
      (n k i : ℕ) (m : Index V)
      → Above n m
      → get i (delete k m) ≡ (if k == i then none else get i m)
  unfolding get delete
  get-delete-Above n k i [] a = ground arith
  get-delete-Above n k i ((j, w) ∷ m) (lt, a) =
      ground (arith, get-delete-Above j k i m a, get-Above j i m a)

  Above-put : (n k : ℕ) (v : V) (m : Index V) → Above n m → n < k → Above n (put k v m)
  unfolding put
  Above-put n k v [] a h = (h, tt)
  Above-put n k v ((j, w) ∷ m) (lt, a) h = ground (arith, Above-put j k v m a)

  Above-delete : (n k : ℕ) (m : Index V) → Above n m → Above n (delete k m)
  unfolding delete
  Above-delete n k [] a = tt
  Above-delete n k ((j, w) ∷ m) (lt, a) = ground (arith, Above-delete j k m a, Above-mono n j m)

  pub get-put :
      (k i : ℕ) (v : V) (m : Index V)
      → IsAscending m
      → get i (put k v m) ≡ (if k == i then some v else get i m)
  unfolding get put
  get-put k i v [] a = refl
  get-put k i v ((j, w) ∷ m) a = ground (arith, get-put-Above j k i v m a, get-Above j i m a)

  pub get-delete :
      (k i : ℕ) (m : Index V)
      → IsAscending m
      → get i (delete k m) ≡ (if k == i then none else get i m)
  unfolding get delete
  get-delete k i [] a = ground arith
  get-delete k i ((j, w) ∷ m) a = ground (arith, get-delete-Above j k i m a, get-Above j i m a)

  pub put-IsAscending : (k : ℕ) (v : V) (m : Index V) → IsAscending m → IsAscending (put k v m)
  unfolding put
  put-IsAscending k v [] a = tt
  put-IsAscending k v ((j, w) ∷ m) a = ground (arith, Above-put j k v m a)

  pub delete-IsAscending : (k : ℕ) (m : Index V) → IsAscending m → IsAscending (delete k m)
  unfolding delete
  delete-IsAscending k [] a = tt
  delete-IsAscending k ((j, w) ∷ []) a = ground arith
  delete-IsAscending k ((j, w) ∷ (i, x) ∷ m) (lt, a) =
      ground (arith, Above-delete j k ((i, x) ∷ m) (lt, a))

  -- The head of an index is its first entry, and what is left is the index without it.
  pub pop_first_lem :
      (o : ℕ) (v : V) (m : Index V)
      → IsAscending ((o, v) ∷ m)
      → (get o ((o, v) ∷ m) ≡ some v) × (m ≡ delete o ((o, v) ∷ m)) × IsAscending m
  unfolding get delete
  pop_first_lem o v [] a = (ground arith, ground arith, tt)
  pop_first_lem o v ((j, w) ∷ m) (lt, a) = (ground arith, ground arith, a)

  -- The first entry has the least key.
  pub first_is_least :
      (o : ℕ) (v : V) (m : Index V) (i : ℕ) (w : V)
      → IsAscending ((o, v) ∷ m)
      → get i ((o, v) ∷ m) ≡ some w
      → o ≤ i
  unfolding get
  first_is_least o v m i w a h = ground (arith, get-Above o i m a)
