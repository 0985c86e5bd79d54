-- ===== src/Hex/Laws.antt =====
-- The hex form of bytes: its length, and that it is decoded to them.
use bitchat_tui.Base.{
  ℕ, ◌*◌, ◌<◌, ◌≡◌, refl, [], ◌∷◌, arith, length, ◌/◌, ◌%◌, ◌==◌, some, All, ok, false,
}
use bitchat_tui.Bytes.{Bytes, IsByte}
use bitchat_tui.Hex.{
  hex_digit, hex_encode, digit_value, byte_of_hex, is_continuation, hex_pairs, hex_decode,
}

pub length-hex_encode : (bytes : Bytes) → length (hex_encode bytes) ≡ 2 * length bytes
unfolding hex_encode
length-hex_encode [] = refl
length-hex_encode (b ∷ bs) = omega (arith, length-hex_encode bs)

hex_digit-injective : (m n : ℕ) → m < 16 → n < 16 → hex_digit m ≡ hex_digit n → m ≡ n
unfolding hex_digit
hex_digit-injective m n hm hn h = ground arith

digit_value-hex_digit : (n : ℕ) → n < 16 → digit_value (hex_digit n) ≡ some n
unfolding digit_value hex_digit
digit_value-hex_digit n h = ground arith

hex_digit_ne_plus : (n : ℕ) → n < 16 → (hex_digit n == b'+') ≡ false
unfolding hex_digit
hex_digit_ne_plus n h = ground arith

byte_of_hex-hex_digit :
    (b : ℕ) → IsByte b → byte_of_hex (hex_digit (b / 16)) (hex_digit (b % 16)) ≡ some b
unfolding byte_of_hex
byte_of_hex-hex_digit b h =
    let high : b / 16 < 16 = omega arith in
    let low : b % 16 < 16 = omega arith in
    ground (
      arith,
      hex_digit_ne_plus (b / 16) high,
      digit_value-hex_digit (b / 16) high,
      digit_value-hex_digit (b % 16) low,
    )

is_continuation-hex_encode :
    (bytes : Bytes) → All IsByte bytes → is_continuation (hex_encode bytes) ≡ false
unfolding is_continuation hex_encode hex_digit
is_continuation-hex_encode [] h = refl
is_continuation-hex_encode (b ∷ bs) (hb, h) = ground arith

hex_pairs-hex_encode :
    (bytes : Bytes) → All IsByte bytes → hex_pairs (hex_encode bytes) ≡ ok (some bytes)
unfolding hex_pairs hex_encode
hex_pairs-hex_encode [] h = refl
hex_pairs-hex_encode (b ∷ bs) (hb, h) =
    ground (
      arith,
      is_continuation-hex_encode bs h,
      byte_of_hex-hex_digit b hb,
      hex_pairs-hex_encode bs h,
    )

-- The hex form of a byte string is decoded to it, without a panic.
pub hex_decode-hex_encode :
    (bytes : Bytes) → All IsByte bytes → hex_decode (hex_encode bytes) ≡ ok (some bytes)
unfolding hex_decode
hex_decode-hex_encode bytes h =
    ground (arith, length-hex_encode bytes, hex_pairs-hex_encode bytes h)
