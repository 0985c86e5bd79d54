-- ===== src/Bytes.antt =====
-- Byte buffers: a `&[u8]` or a `Vec<u8>` is a list of numbers below 256, a Rust string is the list
-- of its UTF-8 bytes, and `to_be_bytes`, `from_be_bytes` are those of u16, u32 and u64.
pub mod Laws
pub mod Cursor
use bitchat_tui.Base.{ℕ, zero, suc, ◌+◌, ◌*◌, ◌/◌, ◌%◌, ◌<◌, List, [], ◌∷◌, ◌++◌, foldl}
use bitchat_tui.Base.{Option, none, some, if◌then◌else◌, leb, length, take, drop}

abbrev pub Bytes : Type 0
Bytes = List ℕ

abbrev pub IsByte : ℕ → Type 0
IsByte b = b < 256

-- The `width` lowest bytes of `value`, the highest first.
unfoldable pub to_be_bytes : ℕ → ℕ → Bytes
to_be_bytes zero value = []
to_be_bytes (suc width) value = to_be_bytes width (value / 256) ++ (value % 256 ∷ [])

unfoldable pub from_be_bytes : Bytes → ℕ
from_be_bytes = foldl (λ acc b. acc * 256 + b) 0

-- The bytes from a cursor on, cut after `n` of them; `none` where fewer than `n` are left, the
-- test `data.len() < offset + n` of the parsers.
unfoldable pub split : ℕ → Bytes → Option (Bytes × Bytes)
split n rest = if leb n (length rest) then some (take n rest, drop n rest) else none
