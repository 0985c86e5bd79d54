-- ===== src/Wire/PeerId.antt =====
-- Peer ids in the messages of src/binary_encoding.rs: eight bytes, hex digits in the program.
use bitchat_tui.Base.{
  ◌-◌, ◌<◌, ◌≡◌, refl, arith, [], ◌++◌, Option, none, some, length, take, replicate, append-nil,
  take_of_length-le, Result, Never, ok, panic, ◌>>=◌, All,
}
use bitchat_tui.Bytes.{Bytes, IsByte, split}
use bitchat_tui.Bytes.Laws.{split-append}
use bitchat_tui.Text.{Text}
use bitchat_tui.Hex.{hex_encode, hex_decode}
use bitchat_tui.Hex.Laws.{hex_decode-hex_encode}

-- `hex_decode(id).unwrap_or_else(|| vec![0u8; 8])`
abbrev pub or_zeros : Option Bytes → Bytes
or_zeros none = replicate 8 0
or_zeros (some bytes) = bytes

-- Zeros are pushed up to eight bytes, then `[..8]` is taken.
unfoldable pub append_padded_id : Text → Result Never Bytes
append_padded_id id = do
  decoded ← hex_decode id
  let bytes = or_zeros decoded
  ok (take 8 (bytes ++ replicate (8 - length bytes) 0))

-- `[..8]` with no padding before it: it panics on fewer bytes.
unfoldable pub append_cut_id : Text → Result Never Bytes
append_cut_id id = do
  decoded ← hex_decode id
  elim (split 8 (or_zeros decoded)) [ none ↦ panic | some (bytes, rest) ↦ ok bytes ]

pub append_padded_id-hex_encode :
    (bytes : Bytes)
    → All IsByte bytes
    → length bytes ≡ 8
    → append_padded_id (hex_encode bytes) ≡ ok bytes
unfolding append_padded_id
append_padded_id-hex_encode bytes h l =
    rw (hex_decode-hex_encode bytes h, l, append-nil bytes, take_of_length-le 8 bytes (omega arith))
      refl

pub append_cut_id-hex_encode :
    (bytes : Bytes)
    → All IsByte bytes
    → length bytes ≡ 8
    → append_cut_id (hex_encode bytes) ≡ ok bytes
unfolding append_cut_id
append_cut_id-hex_encode bytes h l =
    rw (hex_decode-hex_encode bytes h) (ground (arith, split-append 8 bytes [] l, append-nil bytes))

-- An id of fewer than eight bytes is no argument for `append_cut_id`.
pub append_cut_id_short :
    (bytes : Bytes) → All IsByte bytes → length bytes < 8 → append_cut_id (hex_encode bytes) ≡ panic
unfolding append_cut_id split
append_cut_id_short bytes h l = rw (hex_decode-hex_encode bytes h) (ground arith)
