-- ===== src/Base/Maps.antt =====
-- `HashMap` with string or digest keys, as an association list; the first entry of a key counts.
use Prim.Native.Nat.{suc, ◌≤◌, ◌<◌}
use mathlib.Core.Path.{◌≡◌, refl}
use mathlib.Core.Bool.{Bool}
use mathlib.Core.Option.{Option, none, some}
use mathlib.Core.List.{List, [], ◌∷◌}
use native.Mathlib.Omega.{arith}
use srh_rs.Base.Tests.{if◌then◌else◌, is_some}
use srh_rs.Base.Lists.{length}
use srh_rs.Base.Texts.{Text, text_eq, text_eq_iff}

abbrev pub Map {ℓ} : Type ℓ → Type ℓ
Map V = List (Text × V)

module _ {ℓ} {V : Type ℓ} where
  unfoldable pub lookup : Text → Map V → Option V
  unfolding text_eq
  lookup k [] = none
  lookup k ((j, v) ∷ m) = if text_eq j k then some v else lookup k m

  -- `HashMap::remove`: no entry of the key is left.
  unfoldable pub remove : Text → Map V → Map V
  unfolding text_eq
  remove k [] = []
  remove k ((j, v) ∷ m) = let rest = remove k m in if text_eq j k then rest else (j, v) ∷ rest

  -- `HashMap::insert`: an old entry of the key is replaced.
  unfoldable pub insert : Text → V → Map V → Map V
  unfolding text_eq
  insert k v [] = (k, v) ∷ []
  insert k v ((j, w) ∷ m) =
      let rest = insert k v m in if text_eq j k then (k, v) ∷ m else (j, w) ∷ rest

  unfoldable pub has_key : Text → Map V → Bool
  unfolding lookup
  has_key k m = is_some (lookup k m)

  pub lookup_of_nil : (k : Text) → lookup k [] ≡ none
  unfolding lookup
  lookup_of_nil k = refl

  pub lookup-insert :
      (k j : Text) (v : V) (m : Map V)
      → lookup j (insert k v m) ≡ (if text_eq k j then some v else lookup j m)
  unfolding lookup insert
  lookup-insert k j v [] = refl
  lookup-insert k j v ((i, w) ∷ m) =
      ground (arith, text_eq_iff k j, text_eq_iff i k, text_eq_iff i j, lookup-insert k j v m)

  pub lookup-remove :
      (k j : Text) (m : Map V) → lookup j (remove k m) ≡ (if text_eq k j then none else lookup j m)
  unfolding lookup remove
  lookup-remove k j [] = ground arith
  lookup-remove k j ((i, w) ∷ m) =
      ground (arith, text_eq_iff k j, text_eq_iff i k, text_eq_iff i j, lookup-remove k j m)

  pub size-insert : (k : Text) (v : V) (m : Map V) → length (insert k v m) ≤ suc (length m)
  unfolding insert
  size-insert k v [] = omega arith
  size-insert k v ((j, w) ∷ m) = ground (arith, size-insert k v m)

  -- Replacing the value of a key adds no entry.
  pub size-insert_new :
      (k : Text) (v w : V) (m : Map V) → lookup k m ≡ some w → length (insert k v m) ≡ length m
  unfolding insert lookup
  size-insert_new k v w [] h = cc
  size-insert_new k v w ((j, u) ∷ m) h = ground (arith, size-insert_new k v w m)

  pub size-remove_le : (k : Text) (m : Map V) → length (remove k m) ≤ length m
  unfolding remove
  size-remove_le k [] = omega arith
  size-remove_le k ((j, w) ∷ m) = ground (arith, size-remove_le k m)

  pub size-remove :
      (k : Text) (v : V) (m : Map V) → lookup k m ≡ some v → length (remove k m) < length m
  unfolding remove lookup
  size-remove k v [] h = cc
  size-remove k v ((j, w) ∷ m) h = ground (arith, size-remove_le k m, size-remove k v m)
