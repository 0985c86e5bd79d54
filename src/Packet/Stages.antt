-- ===== src/Packet/Stages.antt =====
-- The stages of `parse_bitchat_packet_core` on a frame that src/packet_creation.rs has written.
use bitchat_tui.Base.{ℕ, ◌^◌, ◌<◌, ◌≡◌, refl, arith, ◌∷◌, ◌++◌, Option, none, some, length, ok}
use bitchat_tui.Bytes.{Bytes, to_be_bytes}
use bitchat_tui.Bytes.Laws.{length-to_be_bytes, from_be_bytes-to_be_bytes, split-append}
use bitchat_tui.Text.{Text, HexCrate}
use bitchat_tui.Compression.{Inflate}
use bitchat_tui.Packet.Types.{MessageType, BitchatPacket, type_byte, type_of_byte, is_supported}
use bitchat_tui.Packet.Types
use bitchat_tui.Packet.Encode.{id_bytes_from_str, recipient_bytes, flags_of, signature_bytes}
use bitchat_tui.Packet.Encode.Layout.{length-id_bytes}
use bitchat_tui.Packet.Parse.{
  parse_header, parse_recipient, skip_route, parse_signature, decompress_payload,
}

-- Every message type is read back from its byte.
pub type_of_byte-type_byte : (t : MessageType) → type_of_byte (type_byte t) ≡ some t
unfolding type_of_byte type_byte
type_of_byte-type_byte Types.announce = refl
type_of_byte-type_byte _ = refl

pub header_v1 :
    (raw : ℕ) (t : MessageType) (ttl timestamp flags len : ℕ) (rest : Bytes)
    → type_of_byte raw ≡ some t
    → timestamp < 2 ^ 64
    → len < 2 ^ 16
    → parse_header
        (1 ∷ raw ∷ ttl ∷ (to_be_bytes 8 timestamp ++ (flags ∷ (to_be_bytes 2 len ++ rest))))
      ≡ ok (
        record {
          version = 1;
          msg_type = t;
          ttl = ttl;
          timestamp = timestamp;
          flags = flags;
          payload_len = len;
        },
        rest,
      )
unfolding parse_header is_supported
header_v1 raw t ttl timestamp flags len rest hr ht hl = ground (
  arith,
  split-append 8 (to_be_bytes 8 timestamp) (flags ∷ (to_be_bytes 2 len ++ rest))
      (length-to_be_bytes 8 timestamp),
  split-append 2 (to_be_bytes 2 len) rest (length-to_be_bytes 2 len),
  from_be_bytes-to_be_bytes 8 timestamp ht,
  from_be_bytes-to_be_bytes 2 len hl,
)

pub header_v2 :
    (raw : ℕ) (t : MessageType) (ttl timestamp flags len : ℕ) (rest : Bytes)
    → type_of_byte raw ≡ some t
    → timestamp < 2 ^ 64
    → len < 2 ^ 32
    → parse_header
        (2 ∷ raw ∷ ttl ∷ (to_be_bytes 8 timestamp ++ (flags ∷ (to_be_bytes 4 len ++ rest))))
      ≡ ok (
        record {
          version = 2;
          msg_type = t;
          ttl = ttl;
          timestamp = timestamp;
          flags = flags;
          payload_len = len;
        },
        rest,
      )
unfolding parse_header is_supported
header_v2 raw t ttl timestamp flags len rest hr ht hl = ground (
  arith,
  split-append 8 (to_be_bytes 8 timestamp) (flags ∷ (to_be_bytes 4 len ++ rest))
      (length-to_be_bytes 8 timestamp),
  split-append 4 (to_be_bytes 4 len) rest (length-to_be_bytes 4 len),
  from_be_bytes-to_be_bytes 8 timestamp ht,
  from_be_bytes-to_be_bytes 4 len hl,
)

-- An Ed25519 signature, if there is one.
abbrev pub IsSignature : Option Bytes → Type 0
IsSignature none = Unit
IsSignature (some sig) = length sig ≡ 64

-- The packet that a receiver is meant to see.
unfoldable pub sent_packet :
    HexCrate → ℕ → Text → Option Text → MessageType → Bytes → Option Bytes → ℕ → ℕ → BitchatPacket
sent_packet hex version sender recipient t payload signature ttl timestamp = record {
  version = version;
  msg_type = t;
  sender_id = id_bytes_from_str hex sender;
  sender_id_str = hex.encode (id_bytes_from_str hex sender);
  recipient_id = elim recipient [ some r ↦ some (id_bytes_from_str hex r) | none ↦ none ];
  recipient_id_str = elim recipient [
    | some r ↦ some (hex.encode (id_bytes_from_str hex r))
    | none ↦ none
  ];
  timestamp = timestamp;
  payload = payload;
  signature = signature;
  ttl = ttl;
}

pub recipient_stage :
    (hex : HexCrate) (recipient : Option Text) (signature : Option Bytes) (rest : Bytes)
    → parse_recipient (flags_of recipient signature) (recipient_bytes hex recipient ++ rest)
      ≡ ok (elim recipient [ some r ↦ some (id_bytes_from_str hex r) | none ↦ none ], rest)
unfolding parse_recipient flags_of recipient_bytes
recipient_stage hex none none rest = refl
recipient_stage hex none (some sig) rest = refl
recipient_stage hex (some r) none rest =
    rw (split-append 8 (id_bytes_from_str hex r) rest (length-id_bytes hex r))
recipient_stage hex (some r) (some sig) rest =
    rw (split-append 8 (id_bytes_from_str hex r) rest (length-id_bytes hex r))

pub route_stage :
    (version : ℕ) (recipient : Option Text) (signature : Option Bytes) (rest : Bytes)
    → skip_route version (flags_of recipient signature) rest ≡ ok rest
unfolding skip_route flags_of
route_stage version none none rest = ground arith
route_stage version none (some sig) rest = ground arith
route_stage version (some r) none rest = ground arith
route_stage version (some r) (some sig) rest = ground arith

pub signature_stage :
    (recipient : Option Text) (signature : Option Bytes) (rest : Bytes)
    → IsSignature signature
    → parse_signature (flags_of recipient signature) (signature_bytes signature ++ rest)
      ≡ ok (signature, rest)
unfolding parse_signature flags_of
signature_stage none none rest h = refl
signature_stage (some r) none rest h = refl
signature_stage none (some sig) rest h = rw (split-append 64 sig rest h)
signature_stage (some r) (some sig) rest h = rw (split-append 64 sig rest h)

pub decompress_stage :
    (inflate : Inflate) (version : ℕ) (recipient : Option Text) (signature : Option Bytes)
    (payload : Bytes)
    → decompress_payload inflate version (flags_of recipient signature) payload ≡ ok payload
unfolding decompress_payload flags_of
decompress_stage inflate version none none payload = refl
decompress_stage inflate version none (some sig) payload = refl
decompress_stage inflate version (some r) none payload = refl
decompress_stage inflate version (some r) (some sig) payload = refl

-- What stands behind the header of every frame, and what may follow the frame.
abbrev pub body : HexCrate → Text → Option Text → Bytes → Option Bytes → Bytes → Bytes
body hex sender recipient payload signature tail =
    id_bytes_from_str hex sender
    ++ (recipient_bytes hex recipient ++ (payload ++ (signature_bytes signature ++ tail)))
