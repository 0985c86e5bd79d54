-- ===== src/Wire/VersionHello/RoundTrip.antt =====
-- A version hello is read back from its binary form.
use bitchat_tui.Base.{
  suc, ◌%◌, ◌^◌, ◌<◌, ◌≡◌, refl, arith, [], ◌∷◌, ◌++◌, List, append-nil, append_assoc, Option, none,
  some, length, length-append, ok, true, All, leb, le→leb, not, bit_and, ◌==◌,
}
use bitchat_tui.Bytes.{Bytes}
use bitchat_tui.Bytes.Cursor.{get_byte}
use bitchat_tui.Text.{Text}
use bitchat_tui.Text.Utf8.{is_utf8}
use bitchat_tui.Wire.Buffer.{append_string, read_string-append_string, length-append_string}
use bitchat_tui.Wire.VersionHello.{
  VersionHello, append_strings, append_capabilities, capability_flags, to_binary_data,
  read_versions, read_strings, read_capabilities, from_binary_data,
}

-- A string that fits its length byte.
abbrev pub IsShortText : Text → Type 0
IsShortText s = (length s < 256) × (is_utf8 s ≡ true)

abbrev pub AreShortTexts : Option (List Text) → Type 0
AreShortTexts none = Unit
AreShortTexts (some capabilities) = (length capabilities < 256) × All IsShortText capabilities

read_versions-append :
    (versions rest : Bytes)
    → read_versions (length versions) (versions ++ rest) ≡ ok (versions, rest)
unfolding read_versions get_byte
read_versions-append [] rest = refl
read_versions-append (v ∷ versions) rest = rw (read_versions-append versions rest) refl

read_strings-append :
    (strings : List Text) (rest : Bytes)
    → All IsShortText strings
    → read_strings (length strings) (append_strings strings ++ rest) ≡ ok (strings, rest)
unfolding read_strings append_strings
read_strings-append [] rest h = refl
read_strings-append (s ∷ strings) rest ((hs, valid), h) =
    rw
      (
        append_assoc (append_string s none) (append_strings strings) rest,
        read_string-append_string s (append_strings strings ++ rest) hs valid,
        read_strings-append strings rest h,
      )
      refl

capabilities_stage :
    (capabilities : Option (List Text)) (rest : Bytes)
    → AreShortTexts capabilities
    → read_capabilities
        (not (bit_and (capability_flags capabilities) 0x01 == 0))
        (append_capabilities capabilities ++ rest)
      ≡ ok (capabilities, rest)
unfolding read_capabilities append_capabilities capability_flags get_byte
capabilities_stage none rest h = refl
capabilities_stage (some capabilities) rest (few, h) =
    let fits : length capabilities % 2 ^ 8 ≡ length capabilities = omega arith in
    rw (fits, read_strings-append capabilities rest h) refl

-- A version hello is read back as it was, with or without capabilities, where it lists at most 255
-- versions and 255 capabilities, and its texts are UTF-8 with at most 255 bytes each.
pub from-to_binary_hello :
    (h : VersionHello)
    → length h.supported_versions < 256
    → IsShortText h.client_version
    → IsShortText h.platform
    → AreShortTexts h.capabilities
    → from_binary_data (to_binary_data h) ≡ ok h
unfolding to_binary_data from_binary_data get_byte
from-to_binary_hello h few (lc, tc) (lp, tp) caps =
    let fits : length h.supported_versions % 2 ^ 8 ≡ length h.supported_versions = omega arith in
    let d6 = append_capabilities h.capabilities ++ [] in
    let d5 = append_string h.platform none ++ d6 in
    let d4 = append_string h.client_version none ++ d5 in
    let d3 = h.preferred_version ∷ d4 in
    let long : leb 4 (suc (suc (length (h.supported_versions ++ d3)))) ≡ true = le→leb 4 _ (
      omega (
        arith,
        length-append h.supported_versions d3,
        length-append (append_string h.client_version none) d5,
        length-append (append_string h.platform none) d6,
        length-append_string h.client_version,
        length-append_string h.platform,
      )) in
    rw
      (
        fits,
        ← append-nil (append_capabilities h.capabilities),
        long,
        read_versions-append h.supported_versions d3,
        read_string-append_string h.client_version d5 lc tc,
        read_string-append_string h.platform d6 lp tp,
        capabilities_stage h.capabilities [] caps,
      )
      refl
