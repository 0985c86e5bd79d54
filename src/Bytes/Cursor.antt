-- ===== src/Bytes/Cursor.antt =====
-- Reading a buffer from a cursor on, behind a test of its length.
use bitchat_tui.Base.{
  ℕ, ◌-◌, Result, ok_or, ok, ◌≡◌, length, ◌++◌, [], ◌∷◌, err, panic, leb, ltb, if◌then◌else◌,
  get_elem?, take, drop, none, some,
}
use bitchat_tui.Bytes.{Bytes, split}
use bitchat_tui.Bytes.Laws.{split-append}

-- `data[offset..offset + n]` behind `if data.len() < offset + n { return Err(e); }`
unfoldable pub slice_or : {E : Type 0} → E → ℕ → Bytes → Result E (Bytes × Bytes)
slice_or e n rest = ok_or e (split n rest)

pub slice_or-append :
    {E : Type 0} (e : E) (n : ℕ) (xs ys : Bytes)
    → length xs ≡ n
    → slice_or e n (xs ++ ys) ≡ ok (xs, ys)
unfolding slice_or
slice_or-append e n xs ys h = rw (split-append n xs ys h)

-- `return None`
pub data Refused : Type 0 where
  refused : Refused

-- The byte at the cursor, if there is one.
unfoldable pub get_byte : Bytes → Result Refused (ℕ × Bytes)
get_byte [] = err refused
get_byte (b ∷ rest) = ok (b, rest)

-- `data[i]`
unfoldable pub at : {E : Type 0} → Bytes → ℕ → Result E ℕ
at bytes i = elim (get_elem? bytes i) [ some b ↦ ok b | none ↦ panic ]

-- `a - b` of two `usize`
unfoldable pub sub_usize : {E : Type 0} → ℕ → ℕ → Result E ℕ
sub_usize a b = if ltb a b then panic else ok (a - b)

-- `data[start..]`
unfoldable pub slice_from : {E : Type 0} → Bytes → ℕ → Result E Bytes
slice_from bytes start = if leb start (length bytes) then ok (drop start bytes) else panic

-- `data[..end]`
unfoldable pub slice_to : {E : Type 0} → Bytes → ℕ → Result E Bytes
slice_to bytes end = if leb end (length bytes) then ok (take end bytes) else panic
