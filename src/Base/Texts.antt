-- ===== src/Base/Texts.antt =====
-- Rust strings and byte strings, as lists of bytes. Literals of the source are ASCII, so that the
-- code points of a literal are its bytes.
use Prim.Native.Char.{code}
use Prim.Native.Nat.{ℕ, ◌+◌, ◌-◌, ◌/◌, ◌%◌}
use Prim.Native.String.{String}
use mathlib.Core.Path.{◌≡◌, refl}
use mathlib.Core.Logic.{◌↔◌, ◌⊎◌}
use mathlib.Core.Bool.{Bool, true, false, ◌&&◌, ◌||◌}
use mathlib.Core.List.{List, [], ◌∷◌, map}
use native.Mathlib.Omega.{arith}
use srh_rs.Base.Tests.{leb, ltb, ◌==◌, if◌then◌else◌}

abbrev pub Text : Type 0
Text = List ℕ

abbrev pub text : String → Text
text String.[] = []
text (String.◌∷◌ c s) = code c ∷ text s

unfoldable pub text_eq : Text → Text → Bool
text_eq [] [] = true
text_eq (a ∷ s) (b ∷ t) = a == b && text_eq s t
text_eq _ _ = false

pub text_eq_refl : (s : Text) → text_eq s s ≡ true
unfolding text_eq
text_eq_refl [] = refl
text_eq_refl (a ∷ s) = ground (arith, text_eq_refl s)

text_eq_sound : (s t : Text) → text_eq s t ≡ true → s ≡ t
unfolding text_eq
text_eq_sound [] [] h = refl
text_eq_sound (a ∷ s) (b ∷ t) h = ground (arith, text_eq_sound s t)
text_eq_sound _ _ h = cc

pub text_eq_iff : (s t : Text) → (text_eq s t ≡ true) ↔ (s ≡ t)
text_eq_iff s t = (text_eq_sound s t, λ e. rw e (text_eq_refl t))

-- `u8::to_ascii_uppercase` and `u8::to_ascii_lowercase`.
unfoldable pub to_upper : ℕ → ℕ
to_upper c = if leb b'a' c && leb c b'z' then c - 32 else c

unfoldable pub to_lower : ℕ → ℕ
to_lower c = if leb b'A' c && leb c b'Z' then c + 32 else c

pub to_upper_idem : (c : ℕ) → to_upper (to_upper c) ≡ to_upper c
unfolding to_upper
to_upper_idem c = ground arith

unfoldable pub to_ascii_uppercase : Text → Text
unfolding to_upper
to_ascii_uppercase s = map to_upper s

unfoldable pub to_ascii_lowercase : Text → Text
unfolding to_lower
to_ascii_lowercase s = map to_lower s

unfoldable pub eq_ignore_ascii_case : Text → Text → Bool
unfolding text_eq to_ascii_lowercase
eq_ignore_ascii_case s t = text_eq (to_ascii_lowercase s) (to_ascii_lowercase t)

pub to_ascii_uppercase_idem :
    (s : Text) → to_ascii_uppercase (to_ascii_uppercase s) ≡ to_ascii_uppercase s
unfolding to_ascii_uppercase
to_ascii_uppercase_idem [] = refl
to_ascii_uppercase_idem (c ∷ s) = cc (to_upper_idem c, to_ascii_uppercase_idem s)

lower-upper : (c : ℕ) → to_lower (to_upper c) ≡ to_lower c
unfolding to_lower to_upper
lower-upper c = ground arith

lowercase-uppercase : (s : Text) → to_ascii_lowercase (to_ascii_uppercase s) ≡ to_ascii_lowercase s
unfolding to_ascii_uppercase to_ascii_lowercase
lowercase-uppercase [] = refl
lowercase-uppercase (c ∷ s) = cc (lower-upper c, lowercase-uppercase s)

pub eq_ignore_ascii_case_upper :
    (s t : Text) → eq_ignore_ascii_case (to_ascii_uppercase s) t ≡ eq_ignore_ascii_case s t
unfolding eq_ignore_ascii_case
eq_ignore_ascii_case_upper s t = rw (lowercase-uppercase s)

-- `[T]::contains` and `HashSet::contains` on strings.
unfoldable pub contains : List Text → Text → Bool
unfolding text_eq
contains [] a = false
contains (x ∷ xs) a = text_eq x a || contains xs a

-- Membership, as a predicate.
abbrev pub Contains : List Text → Text → Type 0
Contains [] a = ⊥
Contains (x ∷ xs) a = (x ≡ a) ⊎ Contains xs a

pub contains_iff : (xs : List Text) (a : Text) → (contains xs a ≡ true) ↔ Contains xs a
unfolding contains
contains_iff [] a = ((λ h. cc), λ h. absurd h)
contains_iff (x ∷ xs) a = ground (arith, text_eq_iff x a, contains_iff xs a)

unfoldable pub is_empty : Text → Bool
is_empty [] = true
is_empty (_ ∷ _) = false

shout : to_ascii_uppercase (text "get") ≡ text "GET"
unfolding to_ascii_uppercase
shout = refl

-- A byte as `{:02x}` prints it, for bytes below 256.
abbrev hex_nibble : ℕ → ℕ
hex_nibble d = if ltb d 10 then d + b'0' else d - 10 + b'a'

-- The lowercase hexadecimal text of a byte string.
unfoldable pub hex_digest : Text → Text
hex_digest [] = []
hex_digest (b ∷ s) = hex_nibble (b / 16) ∷ hex_nibble (b % 16) ∷ hex_digest s
