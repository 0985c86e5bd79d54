-- ===== src/Hex.antt =====
-- `hex_encode` and `hex_decode` of src/binary_protocol_utils.rs, on the UTF-8 bytes of a string.
-- The same `{:02x}` format makes the keys of the fragment collector.
pub mod Laws
use bitchat_tui.Base.{
  ℕ, zero, suc, ◌+◌, ◌-◌, ◌*◌, ◌/◌, ◌%◌, [], ◌∷◌, Bool, false, ◌&&◌, ◌||◌, if◌then◌else◌, ltb, leb,
  ◌==◌, not, Option, none, some, length, Result, Never, ok, panic, ◌>>=◌,
}
use bitchat_tui.Bytes.{Bytes}
use bitchat_tui.Text.{Text}

unfoldable pub hex_digit : ℕ → ℕ
hex_digit n = if ltb n 10 then b'0' + n else 87 + n

-- An empty slice gives an empty string on both branches of the source.
unfoldable pub hex_encode : Bytes → Text
unfolding hex_digit
hex_encode [] = []
hex_encode (b ∷ bs) = hex_digit (b / 16) ∷ hex_digit (b % 16) ∷ hex_encode bs

-- The value of one digit, in either case.
unfoldable pub digit_value : ℕ → Option ℕ
digit_value c =
    if leb b'0' c && leb c b'9'
    then some (c - b'0')
    else if leb b'a' c && leb c b'f'
    then some (c - 87)
    else if leb b'A' c && leb c b'F'
    then some (c - 55)
    else none

-- `u8::from_str_radix(s, 16)` on a string of two bytes: a plus sign may stand first.
unfoldable pub byte_of_hex : ℕ → ℕ → Option ℕ
unfolding digit_value
byte_of_hex a b = if a == b'+' then digit_value b else elim (digit_value a) [
  | none ↦ none
  | some hi ↦ elim (digit_value b) [ none ↦ none | some lo ↦ some (hi * 16 + lo) ]
]

-- A byte inside a character: no string may be cut in front of it.
unfoldable pub is_continuation : Text → Bool
is_continuation [] = false
is_continuation (b ∷ rest) = leb 0x80 b && leb b 0xBF

-- The loop over the pairs. A cut `hex_string[start..end]` panics where `end` is inside a character;
-- `start` is the end of the pair before.
unfoldable pub hex_pairs : Text → Result Never (Option Bytes)
hex_pairs [] = ok (some [])
hex_pairs (a ∷ []) = ok (some [])
hex_pairs (a ∷ b ∷ rest) =
    let decoded = hex_pairs rest in
    if is_continuation rest then panic else elim (byte_of_hex a b) [
      | none ↦ ok none
      | some byte ↦
          decoded >>= λ bytes. ok (elim bytes [ none ↦ none | some bs ↦ some (byte ∷ bs) ])
    ]

unfoldable pub hex_decode : Text → Result Never (Option Bytes)
hex_decode hex_string = if not (length hex_string % 2 == 0) then ok none else hex_pairs hex_string
