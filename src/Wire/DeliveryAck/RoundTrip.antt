-- ===== src/Wire/DeliveryAck/RoundTrip.antt =====
-- A delivery acknowledgement is read back from its binary form.
use bitchat_tui.Base.{
  ℕ, ◌*◌, ◌^◌, ◌<◌, ◌≡◌, refl, arith, [], ◌∷◌, ◌++◌, append-nil, none, length, length-append, ok,
  true, All, leb, le→leb,
}
use bitchat_tui.Bytes.{Bytes, IsByte}
use bitchat_tui.Bytes.Cursor.{refused, get_byte, slice_or-append}
use bitchat_tui.Text.{Text}
use bitchat_tui.Text.Utf8.{is_utf8}
use bitchat_tui.Hex.{hex_encode}
use bitchat_tui.Wire.Buffer.{
  append_date, append_string, read_fixed_bytes, read_date-append_date, length-append_date,
  length-append_string, read_string-append_string,
}
use bitchat_tui.Wire.Uuid.{uuid_string}
use bitchat_tui.Wire.Uuid.Laws.{append_uuid-uuid_string, read_uuid-append}
use bitchat_tui.Wire.PeerId.{append_padded_id-hex_encode}
use bitchat_tui.Wire.DeliveryAck.{DeliveryAck, to_binary_data, from_binary_data}

-- An acknowledgement with uuids and a peer id of these bytes.
abbrev pub ack_of : Bytes → Bytes → Bytes → Text → ℕ → ℕ → DeliveryAck
ack_of message_id ack_id recipient_id nickname timestamp hop_count = record {
  original_message_id = uuid_string message_id;
  ack_id = uuid_string ack_id;
  recipient_id = hex_encode recipient_id;
  recipient_nickname = nickname;
  timestamp = timestamp;
  hop_count = hop_count;
}

long_enough :
    (m a r : Bytes) (hop timestamp : ℕ) (nickname : Text)
    → length m ≡ 16
    → length a ≡ 16
    → length r ≡ 8
    → leb 50
        (length (m ++ (a ++ (r ++ (hop ∷ (append_date timestamp ++ append_string nickname none))))))
      ≡ true
long_enough m a r hop timestamp nickname hm ha hr =
    let d5 = append_string nickname none in
    let d4 = append_date timestamp ++ d5 in
    le→leb 50 _ (
      omega (
        arith,
        length-append m (a ++ (r ++ (hop ∷ d4))),
        length-append a (r ++ (hop ∷ d4)),
        length-append r (hop ∷ d4),
        length-append (append_date timestamp) d5,
        length-append_date timestamp,
        length-append_string nickname,
      ))

-- A delivery acknowledgement is written without a panic and read back as it was, where its ids are
-- uuids as `read_uuid` prints them and a peer id of eight bytes, its nickname is UTF-8 with at most
-- 255 bytes, and its time in milliseconds is a u64.
pub from-to_binary_ack :
    (m a r : Bytes) (nickname : Text) (timestamp hop : ℕ)
    → All IsByte m
    → length m ≡ 16
    → All IsByte a
    → length a ≡ 16
    → All IsByte r
    → length r ≡ 8
    → length nickname < 256
    → is_utf8 nickname ≡ true
    → timestamp * 1000 < 2 ^ 64
    → (written : Bytes) × (to_binary_data (ack_of m a r nickname timestamp hop) ≡ ok written)
      × (from_binary_data written ≡ ok (ack_of m a r nickname timestamp hop))
unfolding to_binary_data from_binary_data get_byte read_fixed_bytes
from-to_binary_ack m a r nickname timestamp hop hm lm ha la hr lr ln tn ht =
    let d5 = append_string nickname none in
    let d4 = append_date timestamp ++ d5 in
    let d2 = r ++ (hop ∷ d4) in
    (
      m ++ (a ++ d2),
      rw
          (
            append_uuid-uuid_string m hm lm,
            append_uuid-uuid_string a ha la,
            append_padded_id-hex_encode r hr lr,
          )
          refl,
      rw
          (
            long_enough m a r hop timestamp nickname lm la lr,
            read_uuid-append m (a ++ d2) lm,
            read_uuid-append a d2 la,
            slice_or-append refused 8 r (hop ∷ d4) lr,
            read_date-append_date timestamp d5 ht,
            ← append-nil d5,
            read_string-append_string nickname [] ln tn,
          )
          refl,
    )
