-- ===== src/Wire/Uuid/Laws.antt =====
-- The text of a uuid is written as its bytes, in either case.
use bitchat_tui.Base.{
  ℕ, ◌+◌, ◌/◌, ◌%◌, ◌<◌, ◌≡◌, refl, arith, [], ◌∷◌, ◌++◌, ◌==◌, false, length, some, All, ok,
  Bool-cases, inl, inr,
}
use bitchat_tui.Bytes.{Bytes, IsByte}
use bitchat_tui.Text.{Text}
use bitchat_tui.Hex.{hex_digit, hex_encode, byte_of_hex, digit_value, is_continuation}
use bitchat_tui.Hex.Laws.{length-hex_encode}
use bitchat_tui.Bytes.Cursor.{refused, slice_or-append}
use bitchat_tui.Wire.Buffer.{read_fixed_bytes}
use bitchat_tui.Wire.Uuid.{
  read_uuid, without_hyphens, uuid_pairs, append_uuid, hyphenate, to_uppercase, uuid_string, upper,
  hyphen_before,
}

length-to_uppercase : (text : Text) → length (to_uppercase text) ≡ length text
unfolding to_uppercase
length-to_uppercase [] = refl
length-to_uppercase (c ∷ cs) = omega (arith, length-to_uppercase cs)

upper_digit_ne_hyphen : (n : ℕ) → n < 16 → (upper (hex_digit n) == b'-') ≡ false
unfolding upper hex_digit
upper_digit_ne_hyphen n h = ground arith

upper_digit_ne_plus : (n : ℕ) → n < 16 → (upper (hex_digit n) == b'+') ≡ false
unfolding upper hex_digit
upper_digit_ne_plus n h = ground arith

digit_value-upper : (n : ℕ) → n < 16 → digit_value (upper (hex_digit n)) ≡ some n
unfolding digit_value upper hex_digit
digit_value-upper n h = ground arith

byte_of_hex-upper :
    (b : ℕ)
    → IsByte b
    → byte_of_hex (upper (hex_digit (b / 16))) (upper (hex_digit (b % 16))) ≡ some b
unfolding byte_of_hex
byte_of_hex-upper b h =
    let high : b / 16 < 16 = omega arith in
    let low : b % 16 < 16 = omega arith in
    ground (
      arith,
      upper_digit_ne_plus (b / 16) high,
      digit_value-upper (b / 16) high,
      digit_value-upper (b % 16) low,
    )

without_two :
    (m n : ℕ) (rest : Text)
    → m < 16
    → n < 16
    → without_hyphens (upper (hex_digit m) ∷ upper (hex_digit n) ∷ rest)
      ≡ upper (hex_digit m) ∷ upper (hex_digit n) ∷ without_hyphens rest
unfolding without_hyphens
without_two m n rest hm hn = rw (upper_digit_ne_hyphen m hm, upper_digit_ne_hyphen n hn) refl

-- Without its hyphens the text is that of the digits.
without-hyphenate :
    (index : ℕ) (bytes : Bytes)
    → All IsByte bytes
    → without_hyphens (to_uppercase (hyphenate index (hex_encode bytes)))
      ≡ to_uppercase (hex_encode bytes)
unfolding without_hyphens hyphenate to_uppercase hex_encode upper
without-hyphenate index [] h = refl
without-hyphenate index (b ∷ bs) (hb, h) =
    let high : b / 16 < 16 = omega arith in
    let low : b % 16 < 16 = omega arith in
    let digits =
      without_two (b / 16) (b % 16) (to_uppercase (hyphenate (index + 1) (hex_encode bs))) high
        low in
    elim (Bool-cases (hyphen_before index)) [
      | inl e ↦ rw (e, digits, without-hyphenate (index + 1) bs h) refl
      | inr e ↦ rw (e, digits, without-hyphenate (index + 1) bs h) refl
    ]

no_continuation :
    (bytes : Bytes) → All IsByte bytes → is_continuation (to_uppercase (hex_encode bytes)) ≡ false
unfolding is_continuation to_uppercase hex_encode upper hex_digit
no_continuation [] h = refl
no_continuation (b ∷ bs) (hb, h) = ground arith

uuid_pairs-uppercase :
    (bytes : Bytes) → All IsByte bytes → uuid_pairs (to_uppercase (hex_encode bytes)) ≡ ok bytes
unfolding uuid_pairs to_uppercase hex_encode
uuid_pairs-uppercase [] h = refl
uuid_pairs-uppercase (b ∷ bs) (hb, h) =
    rw (no_continuation bs h, byte_of_hex-upper b hb, uuid_pairs-uppercase bs h) refl

-- The text that `read_uuid` gives for sixteen bytes is written by `append_uuid` as those bytes.
pub append_uuid-uuid_string :
    (bytes : Bytes)
    → All IsByte bytes
    → length bytes ≡ 16
    → append_uuid (uuid_string bytes) ≡ ok bytes
unfolding append_uuid uuid_string
append_uuid-uuid_string bytes h l =
    let size : length (to_uppercase (hex_encode bytes)) ≡ 32 =
      omega (arith, length-to_uppercase (hex_encode bytes), length-hex_encode bytes) in
    rw (without-hyphenate 0 bytes h, size) (uuid_pairs-uppercase bytes h)

pub read_uuid-append :
    (uuid rest : Bytes) → length uuid ≡ 16 → read_uuid (uuid ++ rest) ≡ ok (uuid_string uuid, rest)
unfolding read_uuid read_fixed_bytes
read_uuid-append uuid rest h = rw (slice_or-append refused 16 uuid rest h) refl
