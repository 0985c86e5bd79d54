-- ===== src/Noise/Handshake/Keys.antt =====
-- `validate_public_key` of src/noise_protocol.rs.
use bitchat_tui.Base.{
  [], ◌∷◌, ◌++◌, List, Bool, true, false, ◌&&◌, ◌||◌, ◌==◌, not, length, replicate, Result, ok,
  ◌>>◌, ensure,
}
use bitchat_tui.Bytes.{Bytes}
use bitchat_tui.Maps.{bytes_beq}
use bitchat_tui.Noise.Cipher.{NoiseError}

unfoldable pub all_zero : Bytes → Bool
all_zero [] = true
all_zero (b ∷ bs) = b == 0 && all_zero bs

-- The second of them has 31 bytes.
abbrev pub low_order_points : List Bytes
low_order_points =
    (replicate 32 0x00)
    ∷ (0x01 ∷ (replicate 29 0x00 ++ (0x01 ∷ [])))
    ∷ (replicate 31 0x00 ++ (0x01 ∷ []))
    ∷ (0xe0 ∷ 0xeb ∷ 0x7a ∷ 0x7c ∷ 0x3b ∷ 0x41 ∷ 0xb8 ∷ 0xae ∷ 0x16 ∷ 0x56 ∷ 0xe3 ∷ 0xfa ∷ 0xf1
        ∷ 0x9f ∷ 0xc4 ∷ 0x6a ∷ 0xda ∷ 0x09 ∷ 0x8d ∷ 0xeb ∷ 0x9c ∷ 0x32 ∷ 0xb1 ∷ 0xfd ∷ 0x86 ∷ 0x62
        ∷ 0x05 ∷ 0x16 ∷ 0x5f ∷ 0x49 ∷ 0xb8 ∷ 0x00 ∷ [])
    ∷ (0x5f ∷ 0x9c ∷ 0x95 ∷ 0xbc ∷ 0xa3 ∷ 0x50 ∷ 0x8c ∷ 0x24 ∷ 0xb1 ∷ 0xd0 ∷ 0xb1 ∷ 0x55 ∷ 0x9c
        ∷ 0x83 ∷ 0xef ∷ 0x5b ∷ 0x04 ∷ 0x44 ∷ 0x5c ∷ 0xc4 ∷ 0x58 ∷ 0x1c ∷ 0x8e ∷ 0x86 ∷ 0xd8 ∷ 0x22
        ∷ 0x4e ∷ 0xdd ∷ 0xd0 ∷ 0x9f ∷ 0x11 ∷ 0x57 ∷ [])
    ∷ (replicate 32 0xff)
    ∷ (0xda ∷ replicate 31 0xff)
    ∷ (0xdb ∷ replicate 31 0xff)
    ∷ []

unfoldable pub contains_key_data : Bytes → List Bytes → Bool
contains_key_data key_data [] = false
contains_key_data key_data (point ∷ points) =
    bytes_beq point key_data || contains_key_data key_data points

-- `PublicKey::from` of the array takes every 32 bytes.
unfoldable pub validate_public_key : Bytes → Result NoiseError Bytes
validate_public_key key_data = do
  ensure (length key_data == 32) NoiseError.invalid_public_key
  ensure (not (all_zero key_data)) NoiseError.invalid_public_key
  ensure (not (contains_key_data key_data low_order_points)) NoiseError.invalid_public_key
  ok key_data
