-- ===== src/Text/Trim.antt =====
-- `trim` and `to_ascii_lowercase` of the standard library, on the UTF-8 bytes of a string.
use bitchat_tui.Base.{
  ℕ, zero, suc, ◌+◌, [], ◌∷◌, Bool, true, false, if◌then◌else◌, ◌&&◌, ◌||◌, leb, ◌==◌, length,
  Option, none, some, map,
}
use bitchat_tui.Text.{Text}

-- The rest behind one character with the property White_Space.
unfoldable pub strip_white : Text → Option Text
strip_white (a ∷ b ∷ c ∷ rest) =
    if (leb 0x09 a && leb a 0x0D) || a == 0x20
    then some (b ∷ c ∷ rest)
    else if a == 0xC2 && (b == 0x85 || b == 0xA0)
    then some (c ∷ rest)
    else if (a == 0xE1 && b == 0x9A && c == 0x80)
        || (a == 0xE2
            && b == 0x80
            && ((leb 0x80 c && leb c 0x8A) || c == 0xA8 || c == 0xA9 || c == 0xAF))
        || (a == 0xE2 && b == 0x81 && c == 0x9F)
        || (a == 0xE3 && b == 0x80 && c == 0x80)
    then some rest
    else none
strip_white (a ∷ b ∷ []) =
    if (leb 0x09 a && leb a 0x0D) || a == 0x20
    then some (b ∷ [])
    else if a == 0xC2 && (b == 0x85 || b == 0xA0)
    then some []
    else none
strip_white (a ∷ []) = if (leb 0x09 a && leb a 0x0D) || a == 0x20 then some [] else none
strip_white [] = none

-- Each round takes a byte at least, so the length is fuel enough.
unfoldable pub trim_start_loop : ℕ → Text → Text
trim_start_loop zero text = text
trim_start_loop (suc fuel) text = elim (strip_white text) [
  | some rest ↦ trim_start_loop fuel rest
  | none ↦ text
]

unfoldable pub trim_start : Text → Text
trim_start text = trim_start_loop (length text) text

unfoldable pub is_empty : Text → Bool
is_empty [] = true
is_empty (b ∷ bs) = false

-- The white space that is left at the end is cut.
unfoldable pub trim_end : Text → Text
trim_end [] = []
trim_end (b ∷ bs) =
    let rest = trim_end bs in if is_empty (trim_start (b ∷ bs)) then [] else b ∷ rest

unfoldable pub trim : Text → Text
trim text = trim_end (trim_start text)

-- `trim_start_matches` of one ASCII character.
unfoldable pub trim_start_matches : ℕ → Text → Text
trim_start_matches c [] = []
trim_start_matches c (b ∷ bs) =
    let rest = trim_start_matches c bs in if b == c then rest else b ∷ bs

unfoldable pub to_ascii_lowercase : Text → Text
to_ascii_lowercase text = map (λ b. if leb b'A' b && leb b b'Z' then b + 32 else b) text

-- `strip_prefix`
unfoldable pub strip_prefix : Text → Text → Option Text
strip_prefix [] text = some text
strip_prefix (p ∷ ps) [] = none
strip_prefix (p ∷ ps) (b ∷ bs) = let rest = strip_prefix ps bs in if p == b then rest else none

-- `split_once` of one ASCII character: in front of the first, and behind it.
unfoldable pub split_once : ℕ → Text → Option (Text × Text)
split_once c [] = none
split_once c (b ∷ bs) =
    let later = split_once c bs in
    if b == c
    then some ([], bs)
    else elim later [ none ↦ none | some (front, back) ↦ some (b ∷ front, back) ]
