-- ===== src/Packet/Binary.antt =====
-- `to_binary_data` and `from_binary_data` of `BitchatPacket` in src/data_structures.rs.
pub mod RoundTrip
use bitchat_tui.Base.{
  ℕ, ◌%◌, ◌^◌, [], ◌∷◌, ◌++◌, Bool, if◌then◌else◌, leb, ◌==◌, not, Option, none, some, length,
  bit_and, Result, ok, err, ◌>>=◌, ◌>>◌, ensure, ok_or,
}
use bitchat_tui.Bytes.{Bytes, to_be_bytes, from_be_bytes}
use bitchat_tui.Bytes.Cursor.{Refused, refused, get_byte, slice_or}
use bitchat_tui.Hex.{hex_encode}
use bitchat_tui.Packet.Types.{
  BitchatPacket, type_byte, type_of_byte, flag_has_recipient, flag_has_signature, signature_size,
  broadcast_recipient,
}
use bitchat_tui.Packet.Encode.{flags_of, signature_bytes}

abbrev pub recipient_or_broadcast : Option Bytes → Bytes
recipient_or_broadcast none = broadcast_recipient
recipient_or_broadcast (some recipient) = recipient

unfoldable pub to_binary_data : BitchatPacket → Bytes
to_binary_data p =
    p.version
    ∷ type_byte p.msg_type
    ∷ p.ttl
    ∷ (to_be_bytes 8 p.timestamp
        ++ (flags_of p.recipient_id p.signature
            ∷ (to_be_bytes 2 (length p.payload % 2 ^ 16)
                ++ (p.sender_id
                    ++ (recipient_or_broadcast p.recipient_id
                        ++ (p.payload ++ signature_bytes p.signature))))))

-- A field of `n` bytes that a flag announces.
unfoldable pub field_if : Bool → ℕ → Bytes → Result Refused (Option Bytes × Bytes)
field_if announced n bytes =
    if announced
    then (do (field, rest) ← slice_or refused n bytes; ok (some field, rest))
    else ok (none, bytes)

abbrev pub hex_of : Option Bytes → Option Bytes
hex_of none = none
hex_of (some id) = some (hex_encode id)

unfoldable pub from_binary_data : Bytes → Result Refused BitchatPacket
from_binary_data d0 = do
  ensure (leb 22 (length d0)) refused
  (version, d1) ← get_byte d0
  ensure (version == 1) refused
  (raw, d2) ← get_byte d1
  msg_type ← ok_or refused (type_of_byte raw)
  (ttl, d3) ← get_byte d2
  (timestamp, d4) ← slice_or refused 8 d3
  (flags, d5) ← get_byte d4
  (payload_len, d6) ← slice_or refused 2 d5
  (sender_id, d7) ← slice_or refused 8 d6
  (recipient_id, d8) ← field_if (not (bit_and flags flag_has_recipient == 0)) 8 d7
  (payload, d9) ← slice_or refused (from_be_bytes payload_len) d8
  (signature, d10) ← field_if (not (bit_and flags flag_has_signature == 0)) signature_size d9
  ok (record {
    version = version;
    msg_type = msg_type;
    sender_id = sender_id;
    sender_id_str = hex_encode sender_id;
    recipient_id = recipient_id;
    recipient_id_str = hex_of recipient_id;
    timestamp = from_be_bytes timestamp;
    payload = payload;
    signature = signature;
    ttl = ttl;
  })
