-- ===== src/Packet/Frames.antt =====
-- `parse_bitchat_packet_core` on the frames of `encode_unpadded_packet` and its v2 form.
use bitchat_tui.Base.{
  ℕ, ◌%◌, ◌^◌, ◌<◌, ◌≡◌, refl, arith, ◌∷◌, ◌++◌, append_assoc, Option, none, some, length,
  length-append, take_of_length-le, ok,
}
use bitchat_tui.Bytes.{Bytes, to_be_bytes}
use bitchat_tui.Bytes.Laws.{length-to_be_bytes, split-append}
use bitchat_tui.Text.{Text, HexCrate}
use bitchat_tui.Compression.{Inflate}
use bitchat_tui.Packet.Types.{MessageType, type_byte, type_of_byte}
use bitchat_tui.Packet.Encode.{
  id_bytes_from_str, recipient_bytes, flags_of, signature_bytes, cut_signature, create_frame,
  encode_unpadded_packet, encode_unpadded_packet_v2,
}
use bitchat_tui.Packet.Encode.Layout.{length-id_bytes}
use bitchat_tui.Packet.Parse.{parse_bitchat_packet_core}
use bitchat_tui.Packet.Stages.{
  type_of_byte-type_byte, header_v1, header_v2, recipient_stage, route_stage, signature_stage,
  decompress_stage, IsSignature, sent_packet, body,
}

module _ (hex : HexCrate) (inflate : Inflate) where
  pub core_v1 :
      (sender : Text) (recipient : Option Text) (raw : ℕ) (t : MessageType) (payload : Bytes)
      (signature : Option Bytes) (ttl timestamp : ℕ) (tail : Bytes)
      → type_of_byte raw ≡ some t
      → length payload < 2 ^ 16
      → timestamp < 2 ^ 64
      → IsSignature signature
      → parse_bitchat_packet_core hex inflate (
          1
          ∷ raw
          ∷ ttl
          ∷ (to_be_bytes 8 timestamp
              ++ (flags_of recipient signature
                  ∷ (to_be_bytes 2 (length payload)
                      ++ body hex sender recipient payload signature tail))))
        ≡ ok (sent_packet hex 1 sender recipient t payload signature ttl timestamp)
  unfolding parse_bitchat_packet_core sent_packet
  core_v1 sender recipient raw t payload signature ttl timestamp tail hr hp ht hs =
      let flags = flags_of recipient signature in
      let d5 = signature_bytes signature ++ tail in
      let d3 = payload ++ d5 in
      let d2 = recipient_bytes hex recipient ++ d3 in
      ground (
        arith,
        header_v1 raw t ttl timestamp flags (length payload) (id_bytes_from_str hex sender ++ d2) hr
            ht hp,
        split-append 8 (id_bytes_from_str hex sender) d2 (length-id_bytes hex sender),
        recipient_stage hex recipient signature d3,
        route_stage 1 recipient signature d3,
        split-append (length payload) payload d5 refl,
        signature_stage recipient signature tail hs,
        decompress_stage inflate 1 recipient signature payload,
        length-append (to_be_bytes 8 timestamp)
            (flags ∷ (to_be_bytes 2 (length payload) ++ (id_bytes_from_str hex sender ++ d2))),
        length-append (to_be_bytes 2 (length payload)) (id_bytes_from_str hex sender ++ d2),
        length-append (id_bytes_from_str hex sender) d2,
        length-to_be_bytes 8 timestamp,
        length-to_be_bytes 2 (length payload),
        length-id_bytes hex sender,
      )

  pub core_v2 :
      (sender : Text) (recipient : Option Text) (raw : ℕ) (t : MessageType) (payload : Bytes)
      (signature : Option Bytes) (ttl timestamp : ℕ) (tail : Bytes)
      → type_of_byte raw ≡ some t
      → length payload < 2 ^ 32
      → timestamp < 2 ^ 64
      → IsSignature signature
      → parse_bitchat_packet_core hex inflate (
          2
          ∷ raw
          ∷ ttl
          ∷ (to_be_bytes 8 timestamp
              ++ (flags_of recipient signature
                  ∷ (to_be_bytes 4 (length payload)
                      ++ body hex sender recipient payload signature tail))))
        ≡ ok (sent_packet hex 2 sender recipient t payload signature ttl timestamp)
  unfolding parse_bitchat_packet_core sent_packet
  core_v2 sender recipient raw t payload signature ttl timestamp tail hr hp ht hs =
      let flags = flags_of recipient signature in
      let d5 = signature_bytes signature ++ tail in
      let d3 = payload ++ d5 in
      let d2 = recipient_bytes hex recipient ++ d3 in
      ground (
        arith,
        header_v2 raw t ttl timestamp flags (length payload) (id_bytes_from_str hex sender ++ d2) hr
            ht hp,
        split-append 8 (id_bytes_from_str hex sender) d2 (length-id_bytes hex sender),
        recipient_stage hex recipient signature d3,
        route_stage 2 recipient signature d3,
        split-append (length payload) payload d5 refl,
        signature_stage recipient signature tail hs,
        decompress_stage inflate 2 recipient signature payload,
        length-append (to_be_bytes 8 timestamp)
            (flags ∷ (to_be_bytes 4 (length payload) ++ (id_bytes_from_str hex sender ++ d2))),
        length-append (to_be_bytes 4 (length payload)) (id_bytes_from_str hex sender ++ d2),
        length-append (id_bytes_from_str hex sender) d2,
        length-to_be_bytes 8 timestamp,
        length-to_be_bytes 4 (length payload),
        length-id_bytes hex sender,
      )

-- The encoders cut a signature after 64 bytes, which is all of it.
pub cut_signature_lem :
    (signature : Option Bytes)
    → IsSignature signature
    → cut_signature signature ≡ signature_bytes signature
unfolding cut_signature
cut_signature_lem none h = refl
cut_signature_lem (some sig) h = take_of_length-le 64 sig (omega arith)

module _ (hex : HexCrate) (inflate : Inflate) where
  -- A frame of `encode_unpadded_packet` is parsed to the packet that was meant, whatever bytes
  -- follow it.
  pub core-encode_unpadded_packet :
      (sender : Text) (recipient : Option Text) (t : MessageType) (payload : Bytes)
      (signature : Option Bytes) (ttl timestamp : ℕ) (tail : Bytes)
      → length payload < 2 ^ 16
      → timestamp < 2 ^ 64
      → IsSignature signature
      → parse_bitchat_packet_core hex inflate
          (encode_unpadded_packet hex sender recipient t payload signature ttl timestamp ++ tail)
        ≡ ok (sent_packet hex 1 sender recipient t payload signature ttl timestamp)
  unfolding encode_unpadded_packet
  core-encode_unpadded_packet sender recipient t payload signature ttl timestamp tail hp ht hs =
      let fits : length payload % 2 ^ 16 ≡ length payload = omega arith in
      rw (fits, cut_signature_lem signature hs)
        (simp append_assoc (
          core_v1 hex inflate sender recipient (type_byte t) t payload signature ttl timestamp tail
            (type_of_byte-type_byte t) hp ht hs))

  pub core-encode_unpadded_packet_v2 :
      (sender : Text) (recipient : Option Text) (t : MessageType) (payload : Bytes)
      (signature : Option Bytes) (ttl timestamp : ℕ) (tail : Bytes)
      → length payload < 2 ^ 32
      → timestamp < 2 ^ 64
      → IsSignature signature
      → parse_bitchat_packet_core hex inflate
          (encode_unpadded_packet_v2 hex sender recipient t payload signature ttl timestamp ++ tail)
        ≡ ok (sent_packet hex 2 sender recipient t payload signature ttl timestamp)
  unfolding encode_unpadded_packet_v2
  core-encode_unpadded_packet_v2 sender recipient t payload signature ttl timestamp tail hp ht hs =
      let fits : length payload % 2 ^ 32 ≡ length payload = omega arith in
      rw (fits, cut_signature_lem signature hs)
        (simp append_assoc (
          core_v2 hex inflate sender recipient (type_byte t) t payload signature ttl timestamp tail
            (type_of_byte-type_byte t) hp ht hs))

  -- The same for the frame of `create_bitchat_packet_with_recipient`.
  pub core-create_frame :
      (sender : Text) (recipient : Option Text) (t : MessageType) (payload : Bytes)
      (signature : Option Bytes) (timestamp : ℕ) (tail : Bytes)
      → length payload < 2 ^ 16
      → timestamp < 2 ^ 64
      → IsSignature signature
      → parse_bitchat_packet_core hex inflate
          (create_frame hex sender recipient t payload signature timestamp ++ tail)
        ≡ ok (sent_packet hex 1 sender recipient t payload signature 7 timestamp)
  unfolding create_frame
  core-create_frame sender recipient t payload signature timestamp tail hp ht hs =
      let fits : length payload % 2 ^ 16 ≡ length payload = omega arith in
      rw fits (
        simp append_assoc (
          core_v1 hex inflate sender recipient (type_byte t) t payload signature 7 timestamp tail
            (type_of_byte-type_byte t) hp ht hs))
