-- ===== src/Base/Utf8.antt =====
-- `String::from_utf8_lossy` and `str::from_utf8` of the Rust standard library, on bytes: each
-- maximal invalid run is replaced by U+FFFD.
use Prim.Native.Nat.{ℕ, zero, suc, ◌<◌}
use mathlib.Core.Path.{◌≡◌, refl}
use mathlib.Core.Bool.{Bool, ◌&&◌}
use mathlib.Core.List.{[], ◌∷◌, ◌++◌}
use native.Mathlib.Omega.{arith}
use srh_rs.Base.Tests.{leb, ltb, ◌==◌, if◌then◌else◌}
use srh_rs.Base.Lists.{All}
use srh_rs.Base.Texts.{Text}

abbrev within : ℕ → ℕ → ℕ → Bool
within lo hi b = leb lo b && leb b hi

abbrev is_continuation : ℕ → Bool
is_continuation b = within 0x80 0xbf b

-- Whether the second byte may follow the first of a three-byte or four-byte sequence.
second_of_three : ℕ → ℕ → Bool
second_of_three a b =
    if a == 0xe0
    then within 0xa0 0xbf b
    else if a == 0xed
    then within 0x80 0x9f b
    else is_continuation b

second_of_four : ℕ → ℕ → Bool
second_of_four a b =
    if a == 0xf0
    then within 0x90 0xbf b
    else if a == 0xf4
    then within 0x80 0x8f b
    else is_continuation b

abbrev replacement : Text
replacement = 0xef ∷ 0xbf ∷ 0xbd ∷ []

-- How many bytes are wanted after the first, which is none for one that starts no sequence.
width : ℕ → ℕ
width a =
    if within 0xc2 0xdf a
    then 1
    else if within 0xe0 0xef a
    then 2
    else if within 0xf0 0xf4 a
    then 3
    else 0

-- What a step of the decoder is to do with the bytes that it holds.
-- `expect held left second`: `held` bytes of a sequence have been read, `left` more are wanted, and
-- `second` tests the next one.
pub data Decoder : Type 0 where
  start : Decoder
  expect : Text → ℕ → (ℕ → Bool) → Decoder

-- The test for the byte after the first.
second_test : ℕ → ℕ → Bool
second_test a =
    if within 0xe0 0xef a
    then second_of_three a
    else if within 0xf0 0xf4 a
    then second_of_four a
    else (λ b. is_continuation b)

-- One byte at the start of a sequence: what is written, and the decoder after it.
begin : ℕ → Text × Decoder
begin a =
    if ltb a 0x80
    then (a ∷ [], start)
    else if width a == 0
    then (replacement, start)
    else ([], expect (a ∷ []) (width a) (second_test a))

feed_byte : Decoder → ℕ → Text × Decoder
feed_byte start b = begin b
feed_byte (expect held zero test) b = begin b
feed_byte (expect held (suc zero) test) b =
    if test b then (held ++ (b ∷ []), start) else (replacement ++ (begin b).0, (begin b).1)
feed_byte (expect held (suc (suc left)) test) b =
    if test b
    then ([], expect (held ++ (b ∷ [])) (suc left) (λ c. is_continuation c))
    else (replacement ++ (begin b).0, (begin b).1)

finish : Decoder → Text
finish start = []
finish (expect held left test) = replacement

decode : Decoder → Text → Text
decode d [] = finish d
decode d (b ∷ s) = let (out, d') = feed_byte d b in out ++ decode d' s

unfoldable pub from_utf8_lossy : Text → Text
unfolding decode feed_byte finish begin width second_test second_of_three second_of_four
from_utf8_lossy s = decode start s

-- ASCII text is left alone.
abbrev pub IsAscii : Text → Type 0
IsAscii s = All (λ b. b < 0x80) s

pub from_utf8_lossy_ascii : (s : Text) → IsAscii s → from_utf8_lossy s ≡ s
unfolding from_utf8_lossy
from_utf8_lossy_ascii [] h = refl
from_utf8_lossy_ascii (b ∷ s) (lt, h) = ground (arith, from_utf8_lossy_ascii s h)

lossy_tests :
    (from_utf8_lossy (0x61 ∷ 0xff ∷ 0x62 ∷ []) ≡ 0x61 ∷ 0xef ∷ 0xbf ∷ 0xbd ∷ 0x62 ∷ [])
    × (from_utf8_lossy (0xc3 ∷ 0xa9 ∷ []) ≡ 0xc3 ∷ 0xa9 ∷ [])
    × (from_utf8_lossy (0xe2 ∷ 0x82 ∷ []) ≡ replacement)
    × (from_utf8_lossy (0xf0 ∷ 0x9f ∷ 0x61 ∷ []) ≡ replacement ++ (0x61 ∷ []))
unfolding from_utf8_lossy
lossy_tests = (refl, refl, refl, refl)
