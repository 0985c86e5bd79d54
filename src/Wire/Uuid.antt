-- ===== src/Wire/Uuid.antt =====
-- `append_uuid` and `read_uuid` of src/binary_protocol_utils.rs.
pub mod Laws
use bitchat_tui.Base.{
  ℕ, zero, suc, ◌+◌, ◌-◌, [], ◌∷◌, Bool, ◌&&◌, ◌||◌, if◌then◌else◌, leb, ◌==◌, not, Option, none,
  some, length, replicate, Result, Never, ok, panic, ◌>>=◌,
}
use bitchat_tui.Bytes.{Bytes}
use bitchat_tui.Text.{Text}
use bitchat_tui.Hex.{hex_encode, byte_of_hex, is_continuation}
use bitchat_tui.Wire.Buffer.{Read, read_fixed_bytes}

-- `uuid.replace("-", "")`
unfoldable pub without_hyphens : Text → Text
without_hyphens [] = []
without_hyphens (c ∷ cs) = let rest = without_hyphens cs in if c == b'-' then rest else c ∷ rest

-- The loop over the pairs of digits: a pair that is no byte counts as 0, and a cut inside a
-- character panics.
unfoldable pub uuid_pairs : Text → Result Never Bytes
uuid_pairs [] = ok []
uuid_pairs (a ∷ []) = ok []
uuid_pairs (a ∷ b ∷ rest) =
    let decoded = uuid_pairs rest in
    if is_continuation rest
    then panic
    else decoded >>= λ bytes.
        ok (elim (byte_of_hex a b) [ some byte ↦ byte ∷ bytes | none ↦ 0 ∷ bytes ])

unfoldable pub append_uuid : Text → Result Never Bytes
append_uuid uuid =
    let clean_uuid = without_hyphens uuid in
    if not (length clean_uuid == 32) then ok (replicate 16 0) else uuid_pairs clean_uuid

unfoldable pub hyphen_before : ℕ → Bool
hyphen_before index = index == 4 || index == 6 || index == 8 || index == 10

-- The loop over the pairs of digits; a pair of hex digits is its own lossy form.
unfoldable pub hyphenate : ℕ → Text → Text
hyphenate index [] = []
hyphenate index (a ∷ []) = a ∷ []
hyphenate index (a ∷ b ∷ rest) =
    let pairs = a ∷ b ∷ hyphenate (index + 1) rest in
    if hyphen_before index then b'-' ∷ pairs else pairs

unfoldable pub upper : ℕ → ℕ
upper c = if leb b'a' c && leb c b'z' then c - 32 else c

-- `to_uppercase` on hex digits and hyphens
unfoldable pub to_uppercase : Text → Text
to_uppercase [] = []
to_uppercase (c ∷ cs) = upper c ∷ to_uppercase cs

unfoldable pub uuid_string : Bytes → Text
uuid_string uuid_data = to_uppercase (hyphenate 0 (hex_encode uuid_data))

unfoldable pub read_uuid : Read Text
read_uuid bytes = do (uuid_data, rest) ← read_fixed_bytes 16 bytes; ok (uuid_string uuid_data, rest)
