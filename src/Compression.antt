-- ===== src/Compression.antt =====
-- src/compression.rs. The crates `miniz_oxide` and `lz4_flex` are parameters; `none` is their `Err`.
use bitchat_tui.Base.{
  ℕ, ◌≡◌, Bool, true, false, if◌then◌else◌, ltb, leb, ◌==◌, not, Option, none, some, length, arith,
}
use bitchat_tui.Bytes.{Bytes}

-- `decompress_to_vec_zlib_with_limit` and `decompress_to_vec_with_limit`: input and limit.
pub record Inflate : Type 0 where
  pub zlib : Bytes → ℕ → Option Bytes
  pub raw : Bytes → ℕ → Option Bytes

-- `compress_prepend_size`, `decompress_size_prepended` and `decompress`: input and output size.
pub record Lz4 : Type 0 where
  pub compress_prepend_size : Bytes → Bytes
  pub decompress_size_prepended : Bytes → Option Bytes
  pub decompress : Bytes → ℕ → Option Bytes

abbrev pub compression_threshold : ℕ
compression_threshold = 100

unfoldable pub decompress_zlib : Inflate → Bytes → ℕ → Option Bytes
decompress_zlib inflate input output_size =
    let decompressed : Option Bytes = elim (inflate.zlib input output_size) [
      | some bytes ↦ some bytes
      | none ↦ inflate.raw input output_size
    ] in
    elim decompressed [
      | none ↦ none
      | some bytes ↦ if not (length bytes == output_size) then none else some bytes
    ]

-- An accepted result has exactly the announced size.
pub length-decompress_zlib :
    (inflate : Inflate) (input : Bytes) (output_size : ℕ) (bytes : Bytes)
    → decompress_zlib inflate input output_size ≡ some bytes
    → length bytes ≡ output_size
unfolding decompress_zlib
length-decompress_zlib inflate input output_size bytes h = ground arith

module _ (lz4 : Lz4) where
  unfoldable pub compress_if_beneficial : Bytes → Bytes × Bool
  compress_if_beneficial input =
      if ltb (length input) compression_threshold
      then (input, false)
      else (let compressed = lz4.compress_prepend_size input in
          if ltb (length compressed) (length input) then (compressed, true) else (input, false))

  unfoldable pub decompress : Bytes → Option Bytes
  decompress input = lz4.decompress_size_prepended input

  -- The receiver's side of the flag that `compress_if_beneficial` returns.
  unfoldable pub read_back : Bytes × Bool → Option Bytes
  unfolding decompress
  read_back (bytes, compressed) = if compressed then decompress bytes else some bytes

  -- Compression never makes a message longer and, where the crate's two functions are inverse on
  -- the input, loses nothing.
  pub compress_if_beneficial_lem :
      (input : Bytes)
      → lz4.decompress_size_prepended (lz4.compress_prepend_size input) ≡ some input
      → (leb (length (compress_if_beneficial input).0) (length input) ≡ true)
        × (read_back (compress_if_beneficial input) ≡ some input)
  unfolding compress_if_beneficial read_back
  compress_if_beneficial_lem input h = ground arith
