-- ===== src/Packet/RoundTrip.antt =====
-- What `parse_bitchat_packet` reads from the frames that src/packet_creation.rs writes.
use bitchat_tui.Base.{
  ℕ, ◌-◌, ◌||◌, ◌^◌, ◌<◌, ◌≡◌, sym, arith, [], ◌++◌, Bool, true, false, Option, length, replicate,
  ok, inl, inr, append-nil, leb, ltb, Bool-cases,
}
use bitchat_tui.Bytes.{Bytes}
use bitchat_tui.Text.{Text, HexCrate}
use bitchat_tui.Compression.{Inflate}
use bitchat_tui.Packet.Types.{MessageType, BitchatPacket, type_byte, type_of_byte, is_supported}
use bitchat_tui.Packet.Types
use bitchat_tui.Packet.Padding.{pad_message_to_size, optimal_block_size}
use bitchat_tui.Packet.Encode.{
  pad_unless, create_frame, encode_unpadded_packet, encode_unpadded_packet_v2,
  create_bitchat_packet_with_recipient, create_bitchat_packet_with_recipient_at,
  create_file_transfer_packet_with_recipient_at,
}
use bitchat_tui.Packet.Parse.{parse_bitchat_packet_core, parse_bitchat_packet}
use bitchat_tui.Packet.Stages.{IsSignature, sent_packet}
use bitchat_tui.Packet.Frames.{
  core-encode_unpadded_packet, core-encode_unpadded_packet_v2, core-create_frame,
}

-- Padding adds bytes behind a frame.
pub pad_unless_tail :
    (windows : Bool) (frame : Bytes) → (tail : Bytes) × (pad_unless windows frame ≡ frame ++ tail)
unfolding pad_unless pad_message_to_size
pad_unless_tail true frame = ([], sym (append-nil frame))
pad_unless_tail false frame =
    let target = optimal_block_size (length frame) in
    let needed = target - length frame in
    elim (Bool-cases (leb target (length frame) || ltb 255 needed)) [
      | inl bare ↦ ([], ground (arith, append-nil frame))
      | inr padded ↦ (replicate needed needed, ground arith)
    ]

-- A frame that parses as it is does so at the first attempt.
pub parse_of_core :
    (hex : HexCrate) (inflate : Inflate) (frame : Bytes) (packet : BitchatPacket)
    → parse_bitchat_packet_core hex inflate frame ≡ ok packet
    → parse_bitchat_packet hex inflate frame ≡ ok packet
unfolding parse_bitchat_packet
parse_of_core hex inflate frame packet h = rw (h, parse_bitchat_packet)

module _ (hex : HexCrate) (inflate : Inflate) (windows : Bool) where
  -- On every target, with or without padding, the parser reads the packet that
  -- `create_bitchat_packet_with_recipient` was given: type, time, payload, signature and the default
  -- time to live, and the ids as `id_bytes_from_str` makes them of the given texts. The payload is shorter than 65536 bytes, the time is a u64 and a
  -- signature has 64 bytes.
  pub parse-create_packet :
      (sender : Text) (recipient : Option Text) (t : MessageType) (payload : Bytes)
      (signature : Option Bytes) (timestamp : ℕ)
      → length payload < 2 ^ 16
      → timestamp < 2 ^ 64
      → IsSignature signature
      → parse_bitchat_packet hex inflate (
          create_bitchat_packet_with_recipient hex windows sender recipient t payload signature
            timestamp)
        ≡ ok (sent_packet hex 1 sender recipient t payload signature 7 timestamp)
  unfolding create_bitchat_packet_with_recipient
  parse-create_packet sender recipient t payload signature timestamp hp ht hs =
      let (tail, padded) =
        pad_unless_tail windows (create_frame hex sender recipient t payload signature timestamp) in
      parse_of_core hex inflate _ _ (
        rw padded (
          core-create_frame hex inflate sender recipient t payload signature timestamp tail hp ht
            hs))

  -- On every target, with or without padding, the parser reads the packet that
  -- `create_bitchat_packet_with_recipient_at` was given, with the default time to live. The payload
  -- is shorter than 65536 bytes, the time is a u64 and a signature has 64 bytes.
  pub parse-create_packet_at :
      (sender : Text) (recipient : Option Text) (t : MessageType) (payload : Bytes)
      (signature : Option Bytes) (timestamp : ℕ)
      → length payload < 2 ^ 16
      → timestamp < 2 ^ 64
      → IsSignature signature
      → parse_bitchat_packet hex inflate (
          create_bitchat_packet_with_recipient_at hex windows sender recipient t payload signature
            timestamp)
        ≡ ok (sent_packet hex 1 sender recipient t payload signature 7 timestamp)
  unfolding create_bitchat_packet_with_recipient_at
  parse-create_packet_at sender recipient t payload signature timestamp hp ht hs =
      let (tail, padded) =
        pad_unless_tail windows
          (encode_unpadded_packet hex sender recipient t payload signature 7 timestamp) in
      parse_of_core hex inflate _ _ (
        rw padded (
          core-encode_unpadded_packet hex inflate sender recipient t payload signature 7 timestamp
            tail hp ht hs))

  -- A file transfer, in a v2 frame with a four-byte length, is read back on every target, for
  -- payloads up to 4 GiB.
  pub parse-create_file_transfer_packet :
      (sender : Text) (recipient : Option Text) (payload : Bytes) (signature : Option Bytes)
      (timestamp : ℕ)
      → length payload < 2 ^ 32
      → timestamp < 2 ^ 64
      → IsSignature signature
      → parse_bitchat_packet hex inflate (
          create_file_transfer_packet_with_recipient_at hex windows sender recipient payload
            signature timestamp)
        ≡ ok (sent_packet hex 2 sender recipient Types.file_transfer payload signature 7 timestamp)
  unfolding create_file_transfer_packet_with_recipient_at
  parse-create_file_transfer_packet sender recipient payload signature timestamp hp ht hs =
      let (tail, padded) = pad_unless_tail windows (
        encode_unpadded_packet_v2 hex sender recipient Types.file_transfer payload signature 7
          timestamp) in
      parse_of_core hex inflate _ _ (
        rw padded (
          core-encode_unpadded_packet_v2 hex inflate sender recipient Types.file_transfer payload
            signature 7 timestamp tail hp ht hs))
