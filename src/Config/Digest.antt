-- ===== src/Config/Digest.antt =====
-- src/config.rs: the digests by which static tokens are known. SHA-256 is a parameter.
use srh_rs.Base.{
  ℕ, ◌+◌, ◌-◌, ◌*◌, ◌/◌, ◌%◌, ◌<◌, ◌≡◌, refl, ap, ◌&&◌, [], ◌∷◌, ◌++◌, Option, none, some, Text,
  text, take, hex_digest, Result, ok, err, ◌>>=◌, ok_or, All, ltb, leb, ◌==◌, length, if◌then◌else◌,
  arith,
}
use srh_rs.Config.{ConfigError, validation}

unfoldable pub hex_nibble : ℕ → Option ℕ
hex_nibble byte =
    if leb b'0' byte && leb byte b'9'
    then some (byte - b'0')
    else if leb b'a' byte && leb byte b'f'
    then some (byte - b'a' + 10)
    else if leb b'A' byte && leb byte b'F'
    then some (byte - b'A' + 10)
    else none

abbrev invalid_digest_hex : ConfigError
invalid_digest_hex = validation (text "sha256 token keys must contain only hex")

-- The pairs of hexadecimal digits, high digit first; their bits do not overlap.
unfoldable pub decode_pairs : Text → Result Text ConfigError
unfolding hex_nibble
decode_pairs [] = ok []
decode_pairs (a ∷ []) = ok []
decode_pairs (a ∷ b ∷ hex) = ok_or (hex_nibble a) invalid_digest_hex >>= λ high.
    ok_or (hex_nibble b) invalid_digest_hex >>= λ low.
    decode_pairs hex >>= λ digest. ok ((high * 16 + low) ∷ digest)

unfoldable pub strip_prefix : Text → Text → Option Text
strip_prefix [] t = some t
strip_prefix (a ∷ prefix) [] = none
strip_prefix (a ∷ prefix) (b ∷ t) =
    let rest = strip_prefix prefix t in if a == b then rest else none

abbrev digest_mark : Text
digest_mark = text "sha256:"

unfoldable pub parse_configured_digest : (sha256 : Text → Text) → Text → Result Text ConfigError
parse_configured_digest sha256 token = elim (strip_prefix digest_mark token) [
  | none ↦ ok (sha256 token)
  | some hex ↦
      if length hex == 64
      then decode_pairs hex
      else err (validation (text "sha256 token keys must contain exactly 64 hex characters"))
]

unfoldable pub digest_prefix : Text → Text
unfolding hex_digest
digest_prefix digest = take 8 (hex_digest digest)

strip_prefix-append : (prefix t : Text) → strip_prefix prefix (prefix ++ t) ≡ some t
unfolding strip_prefix
strip_prefix-append [] t = refl
strip_prefix-append (a ∷ prefix) t = ground (arith, strip_prefix-append prefix t)

-- A digit as it is written.
abbrev shown : ℕ → ℕ
shown d = if ltb d 10 then d + b'0' else d - 10 + b'a'

hex_nibble-shown : (d : ℕ) → d < 16 → hex_nibble (shown d) ≡ some d
unfolding hex_nibble
hex_nibble-shown d h = ground arith

decode_pairs-hex_digest : (d : Text) → All (λ b. b < 256) d → decode_pairs (hex_digest d) ≡ ok d
unfolding decode_pairs hex_digest
decode_pairs-hex_digest [] h = refl
decode_pairs-hex_digest (b ∷ d) (lt, h) =
    let high : hex_nibble (shown (b / 16)) ≡ some (b / 16) =
      hex_nibble-shown (b / 16) (omega arith) in
    let low : hex_nibble (shown (b % 16)) ≡ some (b % 16) =
      hex_nibble-shown (b % 16) (omega arith) in
    let whole : b / 16 * 16 + b % 16 ≡ b = omega arith in
    rw (high, low) (rw (decode_pairs-hex_digest d h) (ap (λ n. ok (n ∷ d)) whole))

length-hex_digest : (d : Text) → length (hex_digest d) ≡ 2 * length d
unfolding hex_digest
length-hex_digest [] = refl
length-hex_digest (b ∷ d) = omega (arith, length-hex_digest d)

-- A digest of 32 bytes that is written in hexadecimal behind its mark is read back as it was.
pub parse-digest_hex :
    (sha256 : Text → Text) (digest : Text)
    → length digest ≡ 32
    → All (λ b. b < 256) digest
    → parse_configured_digest sha256 (text "sha256:" ++ hex_digest digest) ≡ ok digest
unfolding parse_configured_digest
parse-digest_hex sha256 digest long bytes = ground (
  arith,
  strip_prefix-append (text "sha256:") (hex_digest digest),
  length-hex_digest digest,
  decode_pairs-hex_digest digest bytes,
)
