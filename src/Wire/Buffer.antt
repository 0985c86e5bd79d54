-- ===== src/Wire/Buffer.antt =====
-- `BinaryDataExt` of src/binary_protocol_utils.rs, less the uuids: what the append methods push, and
-- what the read methods return with the bytes behind it.
use bitchat_tui.Base.{
  ℕ, ◌*◌, ◌/◌, ◌%◌, ◌^◌, ◌<◌, ◌≤◌, ◌≡◌, refl, arith, min, [], ◌∷◌, ◌++◌, if◌then◌else◌, leb, Option,
  none, some, length, take, take_of_length-le, Result, ok, ok_or, ◌>>=◌, true,
}
use bitchat_tui.Bytes.{Bytes, to_be_bytes, from_be_bytes}
use bitchat_tui.Bytes.Laws.{length-to_be_bytes, from_be_bytes-to_be_bytes}
use bitchat_tui.Bytes.Cursor.{Refused, refused, get_byte, slice_or, slice_or-append}
use bitchat_tui.Text.{Text}
use bitchat_tui.Text.Utf8.{from_utf8, is_utf8}

-- The length in one byte or in two, and the bytes up to the limit.
unfoldable pub append_limited : ℕ → Bytes → Bytes
append_limited max_len bytes =
    let len = min (length bytes) max_len in
    (if leb max_len 255 then len % 2 ^ 8 ∷ [] else to_be_bytes 2 (len % 2 ^ 16)) ++ take len bytes

abbrev pub unwrap_or : Option ℕ → ℕ → ℕ
unwrap_or none otherwise = otherwise
unwrap_or (some n) otherwise = n

unfoldable pub append_string : Text → Option ℕ → Bytes
append_string string max_length = append_limited (unwrap_or max_length 255) string

unfoldable pub append_data : Bytes → Option ℕ → Bytes
append_data bytes max_length = append_limited (unwrap_or max_length 65535) bytes

-- Seconds, written as milliseconds; the product wraps in a release build.
unfoldable pub append_date : ℕ → Bytes
append_date timestamp = to_be_bytes 8 (timestamp * 1000 % 2 ^ 64)

abbrev pub Read : Type 0 → Type 0
Read A = Bytes → Result Refused (A × Bytes)

unfoldable pub read_u16 : Read ℕ
read_u16 bytes = do (value, rest) ← slice_or refused 2 bytes; ok (from_be_bytes value, rest)

unfoldable pub read_u64 : Read ℕ
read_u64 bytes = do (value, rest) ← slice_or refused 8 bytes; ok (from_be_bytes value, rest)

unfoldable pub read_fixed_bytes : ℕ → Read Bytes
read_fixed_bytes count bytes = slice_or refused count bytes

unfoldable pub read_limited : ℕ → Read Bytes
read_limited max_len bytes = do
  (len, rest) ← (if leb max_len 255 then get_byte bytes else read_u16 bytes)
  slice_or refused len rest

unfoldable pub read_string : Option ℕ → Read Text
read_string max_length bytes = do
  (string_data, rest) ← read_limited (unwrap_or max_length 255) bytes
  string ← ok_or refused (from_utf8 string_data)
  ok (string, rest)

unfoldable pub read_data : Option ℕ → Read Bytes
read_data max_length bytes = read_limited (unwrap_or max_length 65535) bytes

unfoldable pub read_date : Read ℕ
read_date bytes = do (timestamp_ms, rest) ← read_u64 bytes; ok (timestamp_ms / 1000, rest)

-- A time whose milliseconds fit is read back.
pub read_date-append_date :
    (timestamp : ℕ) (rest : Bytes)
    → timestamp * 1000 < 2 ^ 64
    → read_date (append_date timestamp ++ rest) ≡ ok (timestamp, rest)
unfolding read_date append_date read_u64
read_date-append_date timestamp rest h =
    let fits : timestamp * 1000 % 2 ^ 64 ≡ timestamp * 1000 = omega arith in
    let back : timestamp * 1000 / 1000 ≡ timestamp = omega arith in
    rw
      (
        fits,
        slice_or-append refused 8 (to_be_bytes 8 (timestamp * 1000)) rest
            (length-to_be_bytes 8 (timestamp * 1000)),
        from_be_bytes-to_be_bytes 8 (timestamp * 1000) h,
        back,
      )
      refl

read_limited-append_short :
    (bytes rest : Bytes)
    → length bytes < 256
    → read_limited 255 (append_limited 255 bytes ++ rest) ≡ ok (bytes, rest)
unfolding read_limited append_limited get_byte
read_limited-append_short bytes rest h =
    let cut : min (length bytes) 255 ≡ length bytes = omega arith in
    let fits : length bytes % 2 ^ 8 ≡ length bytes = omega arith in
    rw
      (
        cut,
        fits,
        take_of_length-le (length bytes) bytes (omega arith),
        slice_or-append refused (length bytes) bytes rest refl,
      )
      refl

-- A string of at most 255 bytes is read back.
pub read_string-append_string :
    (string : Text) (rest : Bytes)
    → length string < 256
    → is_utf8 string ≡ true
    → read_string none (append_string string none ++ rest) ≡ ok (string, rest)
unfolding read_string append_string from_utf8
read_string-append_string string rest h valid =
    rw (read_limited-append_short string rest h, valid) refl

pub length-append_date : (timestamp : ℕ) → length (append_date timestamp) ≡ 8
unfolding append_date
length-append_date timestamp = length-to_be_bytes 8 _

pub length-append_string : (string : Text) → 1 ≤ length (append_string string none)
unfolding append_string append_limited
length-append_string string = omega arith
