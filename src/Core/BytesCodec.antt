-- ===== src/Core/BytesCodec.antt =====
-- js/core/bytes_codec.mjs: hexadecimal text and bytes. A byte is a number below 256, a text the
-- list of its UTF-16 units. The conversions to Base64 are the host's, and are not modelled.
use fount_p2p.Base.{
  ℕ, ◌+◌, ◌-◌, ◌*◌, ◌/◌, ◌%◌, ◌<◌, ◌≡◌, refl, Option, none, some, List, [], ◌∷◌, arith, ltb, leb,
  ◌==◌, if◌then◌else◌, ◌&&◌, All, length, ap,
}

abbrev pub IsByte : ℕ → Type 0
IsByte b = b < 256

-- The value of a digit, or `none` where the source has -1.
unfoldable pub hex_nibble : ℕ → Option ℕ
hex_nibble code =
    if leb b'0' code && leb code b'9'
    then some (code - 48)
    else if leb b'a' code && leb code b'f'
    then some (code - 87)
    else if leb b'A' code && leb code b'F'
    then some (code - 55)
    else none

-- `HEX[nibble]`
unfoldable pub hex_digit : ℕ → ℕ
hex_digit n = if ltb n 10 then n + 48 else n + 87

unfoldable pub bytes_to_hex : List ℕ → List ℕ
bytes_to_hex [] = []
bytes_to_hex (b ∷ bs) = hex_digit (b / 16) ∷ hex_digit (b % 16) ∷ bytes_to_hex bs

pub data HexError : Type 0 where
  odd_length invalid_hex : HexError

pub data Decoded : Type 0 where
  ok : List ℕ → Decoded
  err : HexError → Decoded

unfoldable pub prepend : Option ℕ → Option ℕ → Decoded → Decoded
prepend (some high) (some low) (ok bs) = ok ((high * 16 + low) ∷ bs)
prepend (some high) (some low) (err e) = err e
prepend (some high) none r = err invalid_hex
prepend none low r = err invalid_hex

-- The loop over pairs; `hex_to_bytes` has tested that the length is even.
unfoldable pub hex_pairs : List ℕ → Decoded
hex_pairs (high ∷ low ∷ rest) = prepend (hex_nibble high) (hex_nibble low) (hex_pairs rest)
hex_pairs _ = ok []

unfoldable pub hex_to_bytes : List ℕ → Decoded
hex_to_bytes hex = if length hex % 2 == 0 then hex_pairs hex else err odd_length

hex_nibble-hex_digit : (n : ℕ) → n < 16 → hex_nibble (hex_digit n) ≡ some n
unfolding hex_nibble hex_digit
hex_nibble-hex_digit n h = ground arith

pub length-bytes_to_hex : (bs : List ℕ) → length (bytes_to_hex bs) ≡ 2 * length bs
unfolding bytes_to_hex
length-bytes_to_hex [] = omega arith
length-bytes_to_hex (b ∷ bs) = omega (arith, length-bytes_to_hex bs)

hex_pairs-bytes_to_hex : (bs : List ℕ) → All IsByte bs → hex_pairs (bytes_to_hex bs) ≡ ok bs
unfolding bytes_to_hex hex_pairs prepend
hex_pairs-bytes_to_hex [] h = refl
hex_pairs-bytes_to_hex (b ∷ bs) h = ground (
  arith,
  hex_nibble-hex_digit (b / 16),
  hex_nibble-hex_digit (b % 16),
  hex_pairs-bytes_to_hex bs h.1,
)

-- Bytes, numbers below 256, that are printed in hexadecimal are read back.
pub hex_to_bytes-bytes_to_hex :
    (bs : List ℕ) → All IsByte bs → hex_to_bytes (bytes_to_hex bs) ≡ ok bs
unfolding hex_to_bytes
hex_to_bytes-bytes_to_hex bs h = ground (arith, length-bytes_to_hex bs, hex_pairs-bytes_to_hex bs h)

-- Different bytes have different texts.
pub bytes_to_hex-injective :
    (xs ys : List ℕ) → All IsByte xs → All IsByte ys → bytes_to_hex xs ≡ bytes_to_hex ys → xs ≡ ys
bytes_to_hex-injective xs ys hx hy e =
    cc (hex_to_bytes-bytes_to_hex xs hx, hex_to_bytes-bytes_to_hex ys hy, ap hex_to_bytes e)
