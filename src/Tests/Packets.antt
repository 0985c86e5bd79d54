-- ===== src/Tests/Packets.antt =====
-- Packets: runs of the encoders and of the parser.
use bitchat_tui.Base.{
  set, ◌<◌, ◌≡◌, ◌≢◌, ◌↔◌, refl, arith, [], ◌∷◌, false, none, some, replicate, ok, err, panic,
}
use bitchat_tui.Bytes.{Bytes, to_be_bytes, from_be_bytes, split}
use bitchat_tui.Hex.{hex_encode}
use bitchat_tui.Packet.Types.{message, file_transfer, type_byte, type_of_byte, is_supported}
use bitchat_tui.Packet.Padding.{unpad_message, pad_message_to_size, optimal_block_size}
use bitchat_tui.Packet.Padding.Laws.{unpad-pad_message}
use bitchat_tui.Packet.Encode.{
  create_bitchat_packet_with_recipient, create_file_transfer_packet_with_recipient_at,
  create_bitchat_packet_for_signing_at, encode_unpadded_packet, fit_eight, id_bytes_from_str,
  recipient_bytes, flags_of, cut_signature,
}
use bitchat_tui.Packet.Parse.{
  parse_bitchat_packet, parse_bitchat_packet_core, parse_header, parse_recipient, skip_route,
  parse_signature, decompress_payload, ParseError,
}
use bitchat_tui.Packet.Stages.{sent_packet}
use bitchat_tui.Packet.RoundTrip.{parse-create_packet, parse-create_file_transfer_packet}
use bitchat_tui.Packet.Safety.{parse_ne_panic, parse-IsWellFormed, IsWellFormed}
use bitchat_tui.Packet.Binary.{to_binary_data, from_binary_data}
use bitchat_tui.Packet.Binary.RoundTrip.{read_packet, from-to_binary, from-to_binary_broadcast}
use bitchat_tui.Packet.Version.{negotiate_version}
use bitchat_tui.Packet.Version.Laws.{negotiate_version_lem, IsGreatestCommon}
use bitchat_tui.Fragments.Receive.{relay}
use bitchat_tui.Fragments.Relay.{relay_lem}
use bitchat_tui.Tests.Values.{
  plain_hex, fragment_id, no_inflate, alice, bob, greeting, signature, decode_pairs,
}

encoding : Unit {0}
unfolding create_bitchat_packet_for_signing_at encode_unpadded_packet pad_message_to_size
    optimal_block_size fit_eight id_bytes_from_str recipient_bytes flags_of cut_signature
    to_be_bytes type_byte decode_pairs
encoding = tt

parsing : Unit {0}
unfolding parse_bitchat_packet parse_bitchat_packet_core parse_header parse_recipient skip_route
    parse_signature decompress_payload split from_be_bytes type_of_byte is_supported unpad_message
    hex_encode
parsing = tt

-- The test `signing_payload_uses_ttl_zero_and_deterministic_padding` of the source.
signing_payload :
    create_bitchat_packet_for_signing_at plain_hex alice none message greeting 0x0102030405060708
    ≡ 1
      ∷ 2
      ∷ 0
      ∷ 1
      ∷ 2
      ∷ 3
      ∷ 4
      ∷ 5
      ∷ 6
      ∷ 7
      ∷ 8
      ∷ 0
      ∷ 0
      ∷ 2
      ∷ 1
      ∷ 2
      ∷ 3
      ∷ 4
      ∷ 5
      ∷ 6
      ∷ 7
      ∷ 8
      ∷ b'h'
      ∷ b'i'
      ∷ replicate 232 232
unfolding encoding
signing_payload = refl

too_small : parse_bitchat_packet plain_hex no_inflate greeting ≡ err ParseError.packet_too_small
unfolding parsing
too_small = refl

-- Version 3 is refused.
unsupported :
    parse_bitchat_packet plain_hex no_inflate (3 ∷ replicate 21 0)
    ≡ err ParseError.unsupported_version
unfolding parsing
unsupported = refl

parse-create_packet_example :
    parse_bitchat_packet plain_hex no_inflate (
      create_bitchat_packet_with_recipient plain_hex false alice
        (some bob)
        message
        greeting
        (some signature)
        5)
    ≡ ok (sent_packet plain_hex 1 alice (some bob) message greeting (some signature) 7 5)
parse-create_packet_example =
    parse-create_packet plain_hex no_inflate false alice (some bob) message greeting
      (some signature) 5 (omega arith) (omega arith) (omega arith)

parse-create_file_transfer_packet_example :
    parse_bitchat_packet plain_hex no_inflate (
      create_file_transfer_packet_with_recipient_at plain_hex false alice
        (some bob)
        greeting
        none
        5)
    ≡ ok (sent_packet plain_hex 2 alice (some bob) file_transfer greeting none 7 5)
parse-create_file_transfer_packet_example =
    parse-create_file_transfer_packet plain_hex no_inflate false alice (some bob) greeting none 5
      (omega arith) (omega arith) tt

parse_ne_panic_example : parse_bitchat_packet plain_hex no_inflate (1 ∷ replicate 30 2) ≢ panic
parse_ne_panic_example = parse_ne_panic plain_hex no_inflate (1 ∷ replicate 30 2)

abbrev frame : Bytes
frame =
    1 ∷ 2 ∷ 7 ∷ 0 ∷ 0 ∷ 0 ∷ 0 ∷ 0 ∷ 0 ∷ 0 ∷ 5 ∷ 0 ∷ 0 ∷ 1 ∷ 1 ∷ 2 ∷ 3 ∷ 4 ∷ 5 ∷ 6 ∷ 7 ∷ 8 ∷ 1 ∷ []

parse-IsWellFormed_example :
    IsWellFormed plain_hex (sent_packet plain_hex 1 alice none message (1 ∷ []) none 7 5)
unfolding parsing sent_packet id_bytes_from_str fit_eight decode_pairs
parse-IsWellFormed_example =
    parse-IsWellFormed plain_hex no_inflate frame
      (sent_packet plain_hex 1 alice none message (1 ∷ []) none 7 5) refl

unpad-pad_message_example : unpad_message (pad_message_to_size greeting 16) ≡ ok greeting
unpad-pad_message_example = unpad-pad_message greeting 16 (omega arith) (omega arith)

from-to_binary_example :
    from_binary_data
      (to_binary_data (read_packet message 7 5 fragment_id (some fragment_id) greeting none))
    ≡ ok (read_packet message 7 5 fragment_id (some fragment_id) greeting none)
from-to_binary_example =
    from-to_binary message fragment_id fragment_id greeting none 7 5 (omega arith) (omega arith)
      (omega arith) (omega arith) tt

from-to_binary_broadcast_example :
    (from_binary_data (to_binary_data (read_packet message 7 5 fragment_id none greeting none))
      ≡ ok (read_packet message 7 5 fragment_id none (0xFF ∷ 0xFF ∷ []) none))
    × ((from_binary_data (to_binary_data (read_packet message 7 5 fragment_id none greeting none))
          ≡ ok (read_packet message 7 5 fragment_id none greeting none))
        ↔ (greeting ≡ 0xFF ∷ 0xFF ∷ []))
from-to_binary_broadcast_example =
    from-to_binary_broadcast message fragment_id greeting 7 5 (omega arith) (omega arith)
      (omega arith)

negotiate_version_lem_example :
    (negotiate_version (1 ∷ 2 ∷ []) (3 ∷ 2 ∷ 1 ∷ []) ≡ some 2)
    ↔ IsGreatestCommon (1 ∷ 2 ∷ []) (3 ∷ 2 ∷ 1 ∷ []) 2
negotiate_version_lem_example = negotiate_version_lem (1 ∷ 2 ∷ []) (3 ∷ 2 ∷ 1 ∷ []) 2

relay_lem_example :
    (0 < 6)
    × (parse_bitchat_packet_core plain_hex no_inflate (set frame 2 6)
        ≡ ok (sent_packet plain_hex 1 alice none message (1 ∷ []) none 6 5))
unfolding parsing sent_packet id_bytes_from_str fit_eight decode_pairs relay
relay_lem_example =
    relay_lem plain_hex no_inflate frame (set frame 2 6)
      (sent_packet plain_hex 1 alice none message (1 ∷ []) none 7 5) refl refl
