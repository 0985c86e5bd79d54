-- ===== src/Wire/DeliveryAck.antt =====
-- `DeliveryAck` of src/data_structures.rs and its binary form in src/binary_encoding.rs.
pub mod RoundTrip
use bitchat_tui.Base.{
  ℕ, ◌%◌, ◌^◌, [], ◌∷◌, ◌++◌, leb, none, length, Result, Never, ok, ◌>>=◌, ◌>>◌, ensure,
}
use bitchat_tui.Bytes.{Bytes}
use bitchat_tui.Bytes.Cursor.{Refused, refused, get_byte}
use bitchat_tui.Text.{Text}
use bitchat_tui.Hex.{hex_encode}
use bitchat_tui.Wire.Buffer.{append_date, append_string, read_fixed_bytes, read_date, read_string}
use bitchat_tui.Wire.Uuid.{append_uuid, read_uuid}
use bitchat_tui.Wire.PeerId.{append_padded_id}

pub record DeliveryAck : Type 0 where
  pub original_message_id : Text
  pub ack_id : Text
  pub recipient_id : Text
  pub recipient_nickname : Text
  pub timestamp : ℕ
  pub hop_count : ℕ

unfoldable pub to_binary_data : DeliveryAck → Result Never Bytes
to_binary_data a = do
  original_message_id ← append_uuid a.original_message_id
  ack_id ← append_uuid a.ack_id
  recipient_id ← append_padded_id a.recipient_id
  ok (
      original_message_id
      ++ (ack_id
          ++ (recipient_id
              ++ (a.hop_count
                  ∷ (append_date a.timestamp ++ append_string a.recipient_nickname none)))))

unfoldable pub from_binary_data : Bytes → Result Refused DeliveryAck
from_binary_data d0 = do
  ensure (leb 50 (length d0)) refused
  (original_message_id, d1) ← read_uuid d0
  (ack_id, d2) ← read_uuid d1
  (recipient_id, d3) ← read_fixed_bytes 8 d2
  (hop_count, d4) ← get_byte d3
  (timestamp, d5) ← read_date d4
  (recipient_nickname, d6) ← read_string none d5
  ok (record {
    original_message_id = original_message_id;
    ack_id = ack_id;
    recipient_id = hex_encode recipient_id;
    recipient_nickname = recipient_nickname;
    timestamp = timestamp;
    hop_count = hop_count;
  })
