-- ===== src/Wire/ProtocolAck/RoundTrip.antt =====
-- A protocol acknowledgement is read back from its binary form, and panics on short ids.
use bitchat_tui.Base.{
  ℕ, ◌*◌, ◌^◌, ◌<◌, ◌≡◌, refl, arith, [], ◌∷◌, ◌++◌, append-nil, length, length-append, ok, panic,
  true, All, leb, le→leb,
}
use bitchat_tui.Bytes.{Bytes, IsByte}
use bitchat_tui.Bytes.Cursor.{refused, get_byte, slice_or-append}
use bitchat_tui.Hex.{hex_encode}
use bitchat_tui.Wire.Buffer.{
  append_date, read_fixed_bytes, read_date-append_date, length-append_date,
}
use bitchat_tui.Wire.Uuid.{uuid_string}
use bitchat_tui.Wire.Uuid.Laws.{append_uuid-uuid_string, read_uuid-append}
use bitchat_tui.Wire.PeerId.{append_cut_id-hex_encode, append_cut_id_short}
use bitchat_tui.Wire.ProtocolAck.{ProtocolAck, to_binary_data, from_binary_data}

-- An acknowledgement with uuids and peer ids of these bytes.
abbrev pub protocol_ack_of : Bytes → Bytes → Bytes → Bytes → ℕ → ℕ → ℕ → ProtocolAck
protocol_ack_of packet_id ack_id sender receiver packet_type timestamp hop_count = record {
  original_packet_id = uuid_string packet_id;
  ack_id = uuid_string ack_id;
  sender_id = hex_encode sender;
  receiver_id = hex_encode receiver;
  packet_type = packet_type;
  timestamp = timestamp;
  hop_count = hop_count;
}

long_enough :
    (p a s r : Bytes) (packet_type hop timestamp : ℕ)
    → length p ≡ 16
    → length a ≡ 16
    → length s ≡ 8
    → length r ≡ 8
    → leb 50 (length (p ++ (a ++ (s ++ (r ++ (packet_type ∷ hop ∷ append_date timestamp)))))) ≡ true
long_enough p a s r packet_type hop timestamp hp ha hs hr =
    let d4 = packet_type ∷ hop ∷ append_date timestamp in
    le→leb 50 _ (
      omega (
        arith,
        length-append p (a ++ (s ++ (r ++ d4))),
        length-append a (s ++ (r ++ d4)),
        length-append s (r ++ d4),
        length-append r d4,
        length-append_date timestamp,
      ))

-- A protocol acknowledgement is written without a panic and read back as it was, where its ids are
-- uuids as `read_uuid` prints them and peer ids of eight bytes, and its time in milliseconds is a
-- u64.
pub from-to_binary_protocol_ack :
    (p a s r : Bytes) (packet_type timestamp hop : ℕ)
    → All IsByte p
    → length p ≡ 16
    → All IsByte a
    → length a ≡ 16
    → All IsByte s
    → length s ≡ 8
    → All IsByte r
    → length r ≡ 8
    → timestamp * 1000 < 2 ^ 64
    → (written : Bytes) × (to_binary_data (protocol_ack_of p a s r packet_type timestamp hop)
        ≡ ok written)
      × (from_binary_data written ≡ ok (protocol_ack_of p a s r packet_type timestamp hop))
unfolding to_binary_data from_binary_data get_byte read_fixed_bytes
from-to_binary_protocol_ack p a s r packet_type timestamp hop hp lp ha la hs ls hr lr ht =
    let d4 = packet_type ∷ hop ∷ append_date timestamp in
    let d2 = s ++ (r ++ d4) in
    (
      p ++ (a ++ d2),
      rw
          (
            append_uuid-uuid_string p hp lp,
            append_uuid-uuid_string a ha la,
            append_cut_id-hex_encode s hs ls,
            append_cut_id-hex_encode r hr lr,
          )
          refl,
      rw
          (
            long_enough p a s r packet_type hop timestamp lp la ls lr,
            read_uuid-append p (a ++ d2) lp,
            read_uuid-append a d2 la,
            slice_or-append refused 8 s (r ++ d4) ls,
            slice_or-append refused 8 r d4 lr,
            ← append-nil (append_date timestamp),
            read_date-append_date timestamp [] ht,
          )
          refl,
    )

-- With a sender's id of fewer than eight bytes, and uuids as `read_uuid` prints them, the
-- acknowledgement cannot be written: the slice of the id's bytes panics.
pub to_binary_protocol_ack_short :
    (p a s r : Bytes) (packet_type timestamp hop : ℕ)
    → All IsByte p
    → length p ≡ 16
    → All IsByte a
    → length a ≡ 16
    → All IsByte s
    → length s < 8
    → to_binary_data (protocol_ack_of p a s r packet_type timestamp hop) ≡ panic
unfolding to_binary_data
to_binary_protocol_ack_short p a s r packet_type timestamp hop hp lp ha la hs ls =
    rw
      (
        append_uuid-uuid_string p hp lp,
        append_uuid-uuid_string a ha la,
        append_cut_id_short s hs ls,
      )
      refl
