-- ===== src/Wire/VersionHello.antt =====
-- `VersionHello` of src/data_structures.rs and its binary form in src/binary_encoding.rs.
pub mod RoundTrip
use bitchat_tui.Base.{
  ℕ, zero, suc, ◌%◌, ◌^◌, [], ◌∷◌, ◌++◌, List, Bool, if◌then◌else◌, leb, ◌==◌, not, Option, none,
  some, length, bit_and, bit_or, Result, ok, ◌>>=◌, ◌>>◌, ensure,
}
use bitchat_tui.Bytes.{Bytes}
use bitchat_tui.Bytes.Cursor.{Refused, refused, get_byte}
use bitchat_tui.Text.{Text}
use bitchat_tui.Wire.Buffer.{Read, append_string, read_string}

pub record VersionHello : Type 0 where
  pub supported_versions : List ℕ
  pub preferred_version : ℕ
  pub client_version : Text
  pub platform : Text
  pub capabilities : Option (List Text)

-- `for capability in capabilities`
unfoldable pub append_strings : List Text → Bytes
append_strings [] = []
append_strings (s ∷ rest) = append_string s none ++ append_strings rest

unfoldable pub append_capabilities : Option (List Text) → Bytes
append_capabilities none = []
append_capabilities (some capabilities) =
    (length capabilities % 2 ^ 8) ∷ append_strings capabilities

unfoldable pub capability_flags : Option (List Text) → ℕ
capability_flags none = 0
capability_flags (some capabilities) = bit_or 0 0x01

unfoldable pub to_binary_data : VersionHello → Bytes
to_binary_data h =
    capability_flags h.capabilities
    ∷ (length h.supported_versions % 2 ^ 8)
    ∷ (h.supported_versions
        ++ (h.preferred_version
            ∷ (append_string h.client_version none
                ++ (append_string h.platform none ++ append_capabilities h.capabilities))))

-- `for _ in 0..version_count`
unfoldable pub read_versions : ℕ → Read (List ℕ)
read_versions zero bytes = ok ([], bytes)
read_versions (suc count) bytes = do
  (version, rest) ← get_byte bytes
  (versions, rest') ← read_versions count rest
  ok (version ∷ versions, rest')

-- `for _ in 0..cap_count`
unfoldable pub read_strings : ℕ → Read (List Text)
read_strings zero bytes = ok ([], bytes)
read_strings (suc count) bytes = do
  (s, rest) ← read_string none bytes
  (strings, rest') ← read_strings count rest
  ok (s ∷ strings, rest')

unfoldable pub read_capabilities : Bool → Read (Option (List Text))
read_capabilities has_capabilities bytes =
    if has_capabilities
    then (do
      (cap_count, rest) ← get_byte bytes
      (caps, rest') ← read_strings cap_count rest
      ok (some caps, rest'))
    else ok (none, bytes)

unfoldable pub from_binary_data : Bytes → Result Refused VersionHello
from_binary_data d0 = do
  ensure (leb 4 (length d0)) refused
  (flags, d1) ← get_byte d0
  (version_count, d2) ← get_byte d1
  (supported_versions, d3) ← read_versions version_count d2
  (preferred_version, d4) ← get_byte d3
  (client_version, d5) ← read_string none d4
  (platform, d6) ← read_string none d5
  (capabilities, d7) ← read_capabilities (not (bit_and flags 0x01 == 0)) d6
  ok (record {
    supported_versions = supported_versions;
    preferred_version = preferred_version;
    client_version = client_version;
    platform = platform;
    capabilities = capabilities;
  })
