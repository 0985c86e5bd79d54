-- ===== src/Packet/Padding.antt =====
-- PKCS#7-style padding: `optimal_block_size_for_padding` and `pad_message_to_size` of
-- src/packet_creation.rs, `unpad_message` of src/packet_parser.rs.
pub mod Laws
use bitchat_tui.Base.{
  ℕ, ◌+◌, ◌-◌, ◌≤◌, List, [], ◌∷◌, ◌++◌, Bool, true, ◌&&◌, ◌||◌, if◌then◌else◌, leb, ltb, ◌==◌, not,
  length, replicate, Result, Never, ok, ◌>>=◌,
}
use bitchat_tui.Bytes.{Bytes}
use bitchat_tui.Bytes.Cursor.{at, sub_usize, slice_from, slice_to}

abbrev pub block_sizes : List ℕ
block_sizes = 256 ∷ 512 ∷ 1024 ∷ 2048 ∷ []

-- The loop over the block sizes; `otherwise` is what follows it.
unfoldable pub first_block : ℕ → ℕ → List ℕ → ℕ
first_block total otherwise [] = otherwise
first_block total otherwise (size ∷ sizes) =
    if leb total size then size else first_block total otherwise sizes

unfoldable pub optimal_block_size : ℕ → ℕ
unfolding first_block
optimal_block_size data_size = first_block (data_size + 16) data_size block_sizes

unfoldable pub pad_message_to_size : Bytes → ℕ → Bytes
pad_message_to_size bytes target =
    if leb target (length bytes)
    then bytes
    else (let needed = target - length bytes in
        if ltb 255 needed then bytes else bytes ++ replicate needed needed)

-- `iter().all(|byte| *byte as usize == n)`
unfoldable pub all_equal : ℕ → Bytes → Bool
all_equal n [] = true
all_equal n (b ∷ bs) = b == n && all_equal n bs

-- With the index, the subtractions and the slices of the source, any of which can panic.
unfoldable pub unpad_message : Bytes → Result Never Bytes
unfolding all_equal at sub_usize slice_from slice_to
unpad_message bytes = if length bytes == 0 then ok bytes else (do
  last ← sub_usize (length bytes) 1
  padding ← at bytes last
  if padding == 0 || ltb (length bytes) padding || ltb 255 padding then ok bytes else (do
    start ← sub_usize (length bytes) padding
    tail ← slice_from bytes start
    if not (all_equal padding tail) then ok bytes else slice_to bytes start))
