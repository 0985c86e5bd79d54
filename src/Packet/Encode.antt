-- ===== src/Packet/Encode.antt =====
-- The encoders of src/packet_creation.rs. The clock is an argument, `timestamp_ms`, and so is the
-- target, `windows` for `cfg!(target_os = "windows")`.
pub mod Layout
use bitchat_tui.Base.{
  ℕ, ◌+◌, ◌-◌, ◌*◌, ◌%◌, ◌^◌, [], ◌∷◌, ◌++◌, Bool, ◌||◌, if◌then◌else◌, ltb, Option, none, some,
  List, length, take, replicate, bit_or, ◌==◌,
}
use bitchat_tui.Bytes.{Bytes, to_be_bytes}
use bitchat_tui.Text.{Text, HexCrate}
use bitchat_tui.Packet.Types.{
  MessageType, file_transfer, type_byte, flag_has_recipient, flag_has_signature,
}
use bitchat_tui.Packet.Padding.{optimal_block_size, pad_message_to_size}

abbrev pub default_ttl : ℕ
default_ttl = 7

-- Zeros up to eight bytes, or the first eight.
unfoldable pub fit_eight : Bytes → Bytes
fit_eight bytes =
    if ltb (length bytes) 8
    then bytes ++ replicate (8 - length bytes) 0
    else if ltb 8 (length bytes)
    then take 8 bytes
    else bytes

abbrev pub signature_bytes : Option Bytes → Bytes
signature_bytes none = []
signature_bytes (some sig) = sig

-- `&sig[..std::cmp::min(sig.len(), 64)]`
unfoldable pub cut_signature : Option Bytes → Bytes
cut_signature none = []
cut_signature (some sig) = take 64 sig

unfoldable pub flags_of : Option Text → Option Bytes → ℕ
flags_of recipient signature =
    let flags : ℕ = elim recipient [ some _ ↦ bit_or 0 flag_has_recipient | none ↦ 0 ] in
    elim signature [ some _ ↦ bit_or flags flag_has_signature | none ↦ flags ]

module _ (hex : HexCrate) where
  unfoldable pub id_bytes_from_str : Text → Bytes
  id_bytes_from_str id = elim (hex.decode id) [ some bytes ↦ fit_eight bytes | none ↦ fit_eight id ]

  unfoldable pub recipient_bytes : Option Text → Bytes
  recipient_bytes none = []
  recipient_bytes (some recipient) = id_bytes_from_str recipient

  -- `encode_unpadded_packet`; the casts are `as u8` and `as u16`.
  unfoldable pub encode_unpadded_packet :
      Text → Option Text → MessageType → Bytes → Option Bytes → ℕ → ℕ → Bytes
  encode_unpadded_packet sender recipient msg_type payload signature ttl timestamp_ms =
      1
      ∷ type_byte msg_type
      ∷ ttl
      ∷ (to_be_bytes 8 timestamp_ms
          ++ (flags_of recipient signature
              ∷ (to_be_bytes 2 (length payload % 2 ^ 16)
                  ++ (id_bytes_from_str sender
                      ++ (recipient_bytes recipient ++ (payload ++ cut_signature signature))))))

  -- `encode_unpadded_packet_v2`
  unfoldable pub encode_unpadded_packet_v2 :
      Text → Option Text → MessageType → Bytes → Option Bytes → ℕ → ℕ → Bytes
  encode_unpadded_packet_v2 sender recipient msg_type payload signature ttl timestamp_ms =
      2
      ∷ type_byte msg_type
      ∷ ttl
      ∷ (to_be_bytes 8 timestamp_ms
          ++ (flags_of recipient signature
              ∷ (to_be_bytes 4 (length payload % 2 ^ 32)
                  ++ (id_bytes_from_str sender
                      ++ (recipient_bytes recipient ++ (payload ++ cut_signature signature))))))

-- What every public encoder does last; `windows` frames are not padded.
unfoldable pub pad_unless : Bool → Bytes → Bytes
pad_unless windows frame =
    if windows then frame else pad_message_to_size frame (optimal_block_size (length frame))

-- The frame of `create_bitchat_packet_with_recipient`: this one writes the whole signature, where
-- the encoders above write 64 bytes at most.
unfoldable pub create_frame :
    HexCrate → Text → Option Text → MessageType → Bytes → Option Bytes → ℕ → Bytes
create_frame hex sender recipient msg_type payload signature timestamp_ms =
    1
    ∷ type_byte msg_type
    ∷ default_ttl
    ∷ (to_be_bytes 8 timestamp_ms
        ++ (flags_of recipient signature
            ∷ (to_be_bytes 2 (length payload % 2 ^ 16)
                ++ (id_bytes_from_str hex sender
                    ++ (recipient_bytes hex recipient ++ (payload ++ signature_bytes signature))))))

module _ (hex : HexCrate) (windows : Bool) where
  unfoldable pub create_file_transfer_packet_with_recipient_at :
      Text → Option Text → Bytes → Option Bytes → ℕ → Bytes
  create_file_transfer_packet_with_recipient_at sender recipient payload signature timestamp_ms =
      pad_unless windows (
        encode_unpadded_packet_v2 hex sender recipient file_transfer payload signature default_ttl
          timestamp_ms)

  unfoldable pub create_bitchat_packet_with_recipient_at :
      Text → Option Text → MessageType → Bytes → Option Bytes → ℕ → Bytes
  create_bitchat_packet_with_recipient_at sender recipient msg_type payload signature timestamp_ms =
      pad_unless windows (
        encode_unpadded_packet hex sender recipient msg_type payload signature default_ttl
          timestamp_ms)

  unfoldable pub create_bitchat_packet_with_signature_at :
      Text → MessageType → Bytes → Option Bytes → ℕ → Bytes
  create_bitchat_packet_with_signature_at sender msg_type payload signature timestamp_ms =
      create_bitchat_packet_with_recipient_at sender none msg_type payload signature timestamp_ms

  unfoldable pub create_bitchat_packet_with_recipient :
      Text → Option Text → MessageType → Bytes → Option Bytes → ℕ → Bytes
  create_bitchat_packet_with_recipient sender recipient msg_type payload signature timestamp_ms =
      pad_unless windows (create_frame hex sender recipient msg_type payload signature timestamp_ms)

  unfoldable pub create_bitchat_packet : Text → MessageType → Bytes → ℕ → Bytes
  create_bitchat_packet sender msg_type payload timestamp_ms =
      create_bitchat_packet_with_recipient sender none msg_type payload none timestamp_ms

-- The bytes that are signed: time to live 0 and no signature, padded on every target.
module _ (hex : HexCrate) where
  unfoldable pub create_bitchat_packet_for_signing_at :
      Text → Option Text → MessageType → Bytes → ℕ → Bytes
  create_bitchat_packet_for_signing_at sender recipient msg_type payload timestamp_ms =
      let frame =
        encode_unpadded_packet hex sender recipient msg_type payload none 0 timestamp_ms in
      pad_message_to_size frame (optimal_block_size (length frame))

  unfoldable pub create_file_transfer_packet_for_signing_at : Text → Option Text → Bytes → ℕ → Bytes
  create_file_transfer_packet_for_signing_at sender recipient payload timestamp_ms =
      let frame =
        encode_unpadded_packet_v2 hex sender recipient file_transfer payload none 0 timestamp_ms in
      pad_message_to_size frame (optimal_block_size (length frame))

  -- The hops of the neighbour list of an announcement.
  unfoldable pub neighbor_bytes : List Text → Bytes
  neighbor_bytes [] = []
  neighbor_bytes (peer ∷ peers) = id_bytes_from_str hex peer ++ neighbor_bytes peers

  unfoldable pub create_announcement_payload_with_neighbors :
      Text → Bytes → Bytes → List Text → Option Bytes
  create_announcement_payload_with_neighbors nickname noise_key signing_key neighbors =
      let neighbor_len = length neighbors * 8 in
      if ltb 255 (length nickname)
        || ltb 255 (length noise_key)
        || ltb 255 (length signing_key)
        || ltb 255 neighbor_len
      then none
      else some (
          0x01
          ∷ (length nickname % 256)
          ∷ (nickname
              ++ (0x02
                  ∷ (length noise_key % 256)
                  ∷ (noise_key
                      ++ (0x03
                          ∷ (length signing_key % 256)
                          ∷ (signing_key
                              ++ (if length neighbors == 0
                                  then []
                                  else 0x04 ∷ (neighbor_len % 256) ∷ neighbor_bytes neighbors)))))))

  unfoldable pub create_announcement_payload : Text → Bytes → Bytes → Option Bytes
  create_announcement_payload nickname noise_key signing_key =
      create_announcement_payload_with_neighbors nickname noise_key signing_key []
