-- ===== src/Packet/Parse.antt =====
-- `parse_bitchat_packet` and `parse_bitchat_packet_core` of src/packet_parser.rs, in the stages that
-- its numbered comments name. A stage takes the bytes from `offset` on and returns those behind
-- what it has read; an unchecked index or slice out of range is `panic`.
use bitchat_tui.Base.{
  ℕ, ◌*◌, ◌^◌, [], ◌∷◌, Bool, ◌&&◌, if◌then◌else◌, ltb, leb, ◌==◌, not, Option, none, some, length,
  bit_and, Result, ok, err, panic, ◌>>=◌, ◌>>◌, ensure, ok_or,
}
use bitchat_tui.Bytes.{Bytes, from_be_bytes, split}
use bitchat_tui.Bytes.Cursor.{slice_or}
use bitchat_tui.Text.{HexCrate}
use bitchat_tui.Compression.{Inflate, decompress_zlib}
use bitchat_tui.Packet.Types.{
  MessageType, BitchatPacket, type_of_byte, is_supported, flag_has_recipient, flag_has_signature,
  flag_is_compressed, signature_size,
}
use bitchat_tui.Packet.Padding.{unpad_message}

pub data ParseError : Type 0 where
  packet_too_small unsupported_version unknown_message_type : ParseError
  too_small_for_payload_length shorter_than_expected too_small_for_recipient : ParseError
  too_small_for_route_count route_too_large too_small_for_route : ParseError
  too_small_for_signature : ParseError
  compressed_too_short compressed_missing_data decompression_failed : ParseError

abbrev pub Parsed : Type 0 → Type 0
Parsed A = Result ParseError A

-- `data[offset]`
unfoldable pub index : Bytes → Parsed (ℕ × Bytes)
index [] = panic
index (b ∷ rest) = ok (b, rest)

-- `data[offset..offset + n]`, with no test before it
unfoldable pub slice : ℕ → Bytes → Parsed (Bytes × Bytes)
slice n rest = elim (split n rest) [ none ↦ panic | some cut ↦ ok cut ]

pub record Header : Type 0 where
  pub version : ℕ
  pub msg_type : MessageType
  pub ttl : ℕ
  pub timestamp : ℕ
  pub flags : ℕ
  pub payload_len : ℕ

abbrev pub has_flag : ℕ → ℕ → Bool
has_flag flags flag = not (bit_and flags flag == 0)

-- v1 frames have a two-byte payload length, v2 frames a four-byte one.
abbrev pub length_field_size : ℕ → ℕ
length_field_size version = if leb 2 version then 4 else 2

-- 1 to 6: version, type, time to live, timestamp, flags, payload length.
unfoldable pub parse_header : Bytes → Parsed (Header × Bytes)
unfolding index slice slice_or
parse_header d0 = do
  (version, d1) ← index d0
  ensure (is_supported version) ParseError.unsupported_version
  (raw, d2) ← index d1
  msg_type ← ok_or ParseError.unknown_message_type (type_of_byte raw)
  (ttl, d3) ← index d2
  (timestamp_bytes, d4) ← slice 8 d3
  (flags, d5) ← index d4
  (len_bytes, d6) ← slice_or ParseError.too_small_for_payload_length (length_field_size version) d5
  ok (
    record {
      version = version;
      msg_type = msg_type;
      ttl = ttl;
      timestamp = from_be_bytes timestamp_bytes;
      flags = flags;
      payload_len = from_be_bytes len_bytes;
    },
    d6,
  )

-- 8: the recipient, if its flag is set.
unfoldable pub parse_recipient : ℕ → Bytes → Parsed (Option Bytes × Bytes)
unfolding slice_or
parse_recipient flags rest =
    if has_flag flags flag_has_recipient
    then (do (id, rest') ← slice_or ParseError.too_small_for_recipient 8 rest; ok (some id, rest'))
    else ok (none, rest)

-- 9: the route of a v2 packet, a count and so many eight-byte hops, is skipped. The product is the
-- `checked_mul` of a 64-bit `usize`.
unfoldable pub skip_route : ℕ → ℕ → Bytes → Parsed Bytes
unfolding slice_or
skip_route version flags rest =
    if leb 2 version && has_flag flags 0x08
    then (do
      (count_byte, rest') ← slice_or ParseError.too_small_for_route_count 1 rest
      let route_len = from_be_bytes count_byte * 8
      ensure (ltb route_len (2 ^ 64)) ParseError.route_too_large
      (hops, rest'') ← slice_or ParseError.too_small_for_route route_len rest'
      ok rest'')
    else ok rest

-- 10: the signature, if its flag is set.
unfoldable pub parse_signature : ℕ → Bytes → Parsed (Option Bytes × Bytes)
unfolding slice_or
parse_signature flags rest =
    if has_flag flags flag_has_signature
    then (do
      (sig, rest') ← slice_or ParseError.too_small_for_signature signature_size rest
      ok (some sig, rest'))
    else ok (none, rest)

-- `(original_size << 8) | byte`, byte by byte, over two or four bytes is their big-endian number.
unfoldable pub decompress_payload : Inflate → ℕ → ℕ → Bytes → Parsed Bytes
unfolding slice_or
decompress_payload inflate version flags payload =
    if has_flag flags flag_is_compressed
    then (do
      (size_bytes, compressed) ←
          slice_or ParseError.compressed_too_short (length_field_size version) payload
      ensure (not (length compressed == 0)) ParseError.compressed_missing_data
      ok_or ParseError.decompression_failed
          (decompress_zlib inflate compressed (from_be_bytes size_bytes)))
    else ok payload

module _ (hex : HexCrate) (inflate : Inflate) where
  unfoldable pub parse_bitchat_packet_core : Bytes → Parsed BitchatPacket
  unfolding slice_or
  parse_bitchat_packet_core frame = do
    ensure (leb 22 (length frame)) ParseError.packet_too_small
    (h, d1) ← parse_header frame
    (sender_id, d2) ← slice_or ParseError.shorter_than_expected 8 d1
    (recipient_id, d3) ← parse_recipient h.flags d2
    d4 ← skip_route h.version h.flags d3
    (payload, d5) ← slice_or ParseError.shorter_than_expected h.payload_len d4
    (signature, d6) ← parse_signature h.flags d5
    payload' ← decompress_payload inflate h.version h.flags payload
    ok (record {
      version = h.version;
      msg_type = h.msg_type;
      sender_id = sender_id;
      sender_id_str = hex.encode sender_id;
      recipient_id = recipient_id;
      recipient_id_str = elim recipient_id [ some id ↦ some (hex.encode id) | none ↦ none ];
      timestamp = h.timestamp;
      payload = payload';
      signature = signature;
      ttl = h.ttl;
    })

  -- The frame as it is, then, on an error, without its padding.
  unfoldable pub parse_bitchat_packet : Bytes → Parsed BitchatPacket
  parse_bitchat_packet frame = elim (parse_bitchat_packet_core frame) [
    | ok packet ↦ ok packet
    | panic ↦ panic
    | err first_error ↦ (elim (unpad_message frame) [
      | err never ↦ elim never [ ]
      | panic ↦ panic
      | ok unpadded ↦
          if length unpadded == length frame
          then err first_error
          else parse_bitchat_packet_core unpadded
    ])
  ]
