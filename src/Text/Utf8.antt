-- ===== src/Text/Utf8.antt =====
-- `String::from_utf8` and `String::from_utf8_lossy`: UTF-8 as the standard library checks it, one
-- character, or one broken sequence, at a time.
use bitchat_tui.Base.{
  ℕ, zero, suc, ◌≤◌, ◌≡◌, refl, arith, [], ◌∷◌, ◌++◌, Bool, true, false, ◌&&◌, not, if◌then◌else◌,
  ltb, leb, ◌==◌, Option, none, some, length, take, drop, get_or, length-drop, take-append-drop,
}
use bitchat_tui.Bytes.{Bytes}
use bitchat_tui.Text.{Text}

unfoldable pub within : ℕ → ℕ → ℕ → Bool
within low high b = leb low b && leb b high

-- The number of bytes that a first byte announces, 0 where no character starts with it.
unfoldable pub utf8_char_width : ℕ → ℕ
utf8_char_width lead =
    if ltb lead 0x80
    then 1
    else if within 0xC2 0xDF lead
    then 2
    else if within 0xE0 0xEF lead
    then 3
    else if within 0xF0 0xF4 lead
    then 4
    else 0

-- The second byte: no overlong forms, no surrogates, nothing above U+10FFFF.
unfoldable pub is_second_byte : ℕ → ℕ → Bool
is_second_byte lead b =
    if lead == 0xE0
    then within 0xA0 0xBF b
    else if lead == 0xED
    then within 0x80 0x9F b
    else if lead == 0xF0
    then within 0x90 0xBF b
    else if lead == 0xF4
    then within 0x80 0x8F b
    else within 0x80 0xBF b

-- Whether a character starts here, and how many bytes behind the first one belong to it or to the
-- broken sequence. A byte that is missing counts as 0.
unfoldable pub utf8_char : ℕ → Bytes → Bool × ℕ
utf8_char lead rest =
    let width = utf8_char_width lead in
    if width == 1
    then (true, 0)
    else if width == 0
    then (false, 0)
    else if not (is_second_byte lead (get_or rest 0 0))
    then (false, 0)
    else if width == 2
    then (true, 1)
    else if not (within 0x80 0xBF (get_or rest 1 0))
    then (false, 1)
    else if width == 3
    then (true, 2)
    else if not (within 0x80 0xBF (get_or rest 2 0))
    then (false, 2)
    else (true, 3)

unfoldable pub utf8_loop : ℕ → Bytes → Bool
utf8_loop zero bytes = true
utf8_loop (suc fuel) [] = true
utf8_loop (suc fuel) (b ∷ bs) =
    let rest = utf8_loop fuel (drop (utf8_char b bs).1 bs) in
    if (utf8_char b bs).0 then rest else false

unfoldable pub is_utf8 : Bytes → Bool
is_utf8 bytes = utf8_loop (length bytes) bytes

unfoldable pub from_utf8 : Bytes → Option Text
from_utf8 bytes = if is_utf8 bytes then some bytes else none

-- Each broken sequence becomes U+FFFD.
unfoldable pub lossy_loop : ℕ → Bytes → Text
lossy_loop zero bytes = []
lossy_loop (suc fuel) [] = []
lossy_loop (suc fuel) (b ∷ bs) =
    let rest = lossy_loop fuel (drop (utf8_char b bs).1 bs) in
    if (utf8_char b bs).0
    then b ∷ (take (utf8_char b bs).1 bs ++ rest)
    else 0xEF ∷ 0xBF ∷ 0xBD ∷ rest

unfoldable pub from_utf8_lossy : Bytes → Text
from_utf8_lossy bytes = lossy_loop (length bytes) bytes

lossy_loop_valid :
    (fuel : ℕ) (bytes : Bytes)
    → length bytes ≤ fuel
    → utf8_loop fuel bytes ≡ true
    → lossy_loop fuel bytes ≡ bytes
unfolding utf8_loop lossy_loop
lossy_loop_valid zero [] h valid = refl
lossy_loop_valid zero (b ∷ bs) h valid = absurd (omega arith)
lossy_loop_valid (suc fuel) [] h valid = refl
lossy_loop_valid (suc fuel) (b ∷ bs) h valid = ground (
  arith,
  lossy_loop_valid fuel (drop (utf8_char b bs).1 bs)
      (omega (arith, length-drop (utf8_char b bs).1 bs)),
  take-append-drop (utf8_char b bs).1 bs,
)

-- Valid text is kept as it is.
pub from_utf8_lossy_valid : (bytes : Bytes) → is_utf8 bytes ≡ true → from_utf8_lossy bytes ≡ bytes
unfolding from_utf8_lossy is_utf8
from_utf8_lossy_valid bytes valid = lossy_loop_valid (length bytes) bytes (omega arith) valid
