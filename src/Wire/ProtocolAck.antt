-- ===== src/Wire/ProtocolAck.antt =====
-- `ProtocolAck` of src/data_structures.rs and its binary form in src/binary_encoding.rs.
pub mod RoundTrip
use bitchat_tui.Base.{ℕ, [], ◌∷◌, ◌++◌, leb, length, Result, Never, ok, ◌>>=◌, ◌>>◌, ensure}
use bitchat_tui.Bytes.{Bytes}
use bitchat_tui.Bytes.Cursor.{Refused, refused, get_byte}
use bitchat_tui.Text.{Text}
use bitchat_tui.Hex.{hex_encode}
use bitchat_tui.Wire.Buffer.{append_date, read_fixed_bytes, read_date}
use bitchat_tui.Wire.Uuid.{append_uuid, read_uuid}
use bitchat_tui.Wire.PeerId.{append_cut_id}

pub record ProtocolAck : Type 0 where
  pub original_packet_id : Text
  pub ack_id : Text
  pub sender_id : Text
  pub receiver_id : Text
  pub packet_type : ℕ
  pub timestamp : ℕ
  pub hop_count : ℕ

unfoldable pub to_binary_data : ProtocolAck → Result Never Bytes
to_binary_data a = do
  original_packet_id ← append_uuid a.original_packet_id
  ack_id ← append_uuid a.ack_id
  sender_id ← append_cut_id a.sender_id
  receiver_id ← append_cut_id a.receiver_id
  ok (
      original_packet_id
      ++ (ack_id
          ++ (sender_id
              ++ (receiver_id ++ (a.packet_type ∷ a.hop_count ∷ append_date a.timestamp)))))

unfoldable pub from_binary_data : Bytes → Result Refused ProtocolAck
from_binary_data d0 = do
  ensure (leb 50 (length d0)) refused
  (original_packet_id, d1) ← read_uuid d0
  (ack_id, d2) ← read_uuid d1
  (sender_id, d3) ← read_fixed_bytes 8 d2
  (receiver_id, d4) ← read_fixed_bytes 8 d3
  (packet_type, d5) ← get_byte d4
  (hop_count, d6) ← get_byte d5
  (timestamp, d7) ← read_date d6
  ok (record {
    original_packet_id = original_packet_id;
    ack_id = ack_id;
    sender_id = hex_encode sender_id;
    receiver_id = hex_encode receiver_id;
    packet_type = packet_type;
    timestamp = timestamp;
    hop_count = hop_count;
  })
