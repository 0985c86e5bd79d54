-- ===== src/Payload/Message.antt =====
-- The message payloads of src/payload_handling.rs: a flag byte, eight bytes of time, id, sender and
-- content, and what the flags announce. The clock and the random message id are arguments.
pub mod RoundTrip
use bitchat_tui.Base.{
  ℕ, zero, suc, ◌%◌, ◌^◌, [], ◌∷◌, ◌++◌, Bool, true, false, if◌then◌else◌, ◌==◌, not, Option, none,
  some, length, bit_and, bit_or, Result, ok, err, ◌>>=◌, ◌>>◌,
}
use bitchat_tui.Bytes.{Bytes, to_be_bytes, from_be_bytes}
use bitchat_tui.Bytes.Cursor.{slice_or}
use bitchat_tui.Text.{Text}
use bitchat_tui.Text.Utf8.{from_utf8_lossy}

abbrev pub msg_flag_is_private : ℕ
msg_flag_is_private = 0x02

abbrev pub msg_flag_has_original_sender : ℕ
msg_flag_has_original_sender = 0x04

abbrev pub msg_flag_has_recipient_nickname : ℕ
msg_flag_has_recipient_nickname = 0x08

abbrev pub msg_flag_has_sender_peer_id : ℕ
msg_flag_has_sender_peer_id = 0x10

abbrev pub msg_flag_has_mentions : ℕ
msg_flag_has_mentions = 0x20

abbrev pub msg_flag_has_channel : ℕ
msg_flag_has_channel = 0x40

abbrev pub msg_flag_is_encrypted : ℕ
msg_flag_is_encrypted = 0x80

pub record BitchatMessage : Type 0 where
  pub id : Text
  pub sender : Text
  pub content : Text
  pub channel : Option Text
  pub is_encrypted : Bool
  pub encrypted_content : Option Bytes

-- "Payload too short for ..."
pub data TooShort : Type 0 where
  for_flags for_timestamp for_id_length for_id for_sender_length for_sender : TooShort
  for_content_length for_content for_original_sender_length for_original_sender : TooShort
  for_recipient_nickname_length for_recipient_nickname : TooShort
  for_sender_peer_id_length for_sender_peer_id : TooShort
  for_mentions_count for_mention_length for_mention : TooShort
  for_channel_length for_channel : TooShort

abbrev pub Parsed : Type 0 → Type 0
Parsed A = Result TooShort A

-- `data[offset]` behind the test that there is such a byte
unfoldable pub byte_or : TooShort → Bytes → Parsed (ℕ × Bytes)
byte_or e [] = err e
byte_or e (b ∷ rest) = ok (b, rest)

-- A length byte and so many bytes.
unfoldable pub short_or : TooShort → TooShort → Bytes → Parsed (Bytes × Bytes)
short_or e_length e bytes = do (len, rest) ← byte_or e_length bytes; slice_or e len rest

abbrev pub has : ℕ → ℕ → Bool
has flags flag = not (bit_and flags flag == 0)

-- An optional field that is not kept.
unfoldable pub skip_if : Bool → TooShort → TooShort → Bytes → Parsed Bytes
skip_if announced e_length e bytes =
    if announced then (do (skipped, rest) ← short_or e_length e bytes; ok rest) else ok bytes

-- `for _ in 0..mentions_count`
unfoldable pub skip_each : ℕ → Bytes → Parsed Bytes
skip_each zero bytes = ok bytes
skip_each (suc count) bytes = do
  (mention, rest) ← short_or for_mention_length for_mention bytes
  skip_each count rest

unfoldable pub skip_mentions : ℕ → Bytes → Parsed Bytes
skip_mentions flags bytes =
    if has flags msg_flag_has_mentions
    then (do (count, rest) ← byte_or for_mentions_count bytes; skip_each count rest)
    else ok bytes

unfoldable pub parse_channel : ℕ → Bytes → Parsed (Option Text)
parse_channel flags bytes =
    if has flags msg_flag_has_channel
    then (do
      (channel, rest) ← short_or for_channel_length for_channel bytes
      ok (some (from_utf8_lossy channel)))
    else ok none

-- "Handle optional fields based on flags", and the result.
unfoldable pub parse_optional_fields : ℕ → Bytes → Bytes → Bytes → Bytes → Parsed BitchatMessage
parse_optional_fields flags id sender content d6 = do
  d7 ←
      skip_if (has flags msg_flag_has_original_sender) for_original_sender_length
        for_original_sender d6
  d8 ←
      skip_if (has flags msg_flag_has_recipient_nickname) for_recipient_nickname_length
        for_recipient_nickname d7
  d9 ←
      skip_if (has flags msg_flag_has_sender_peer_id) for_sender_peer_id_length for_sender_peer_id
        d8
  d10 ← skip_mentions flags d9
  channel ← parse_channel flags d10
  let encrypted = has flags msg_flag_is_encrypted
  ok (record {
    id = from_utf8_lossy id;
    sender = from_utf8_lossy sender;
    content = if encrypted then [] else from_utf8_lossy content;
    channel = channel;
    is_encrypted = encrypted;
    encrypted_content = if encrypted then some content else none;
  })

unfoldable pub parse_bitchat_message_payload : Bytes → Parsed BitchatMessage
parse_bitchat_message_payload d0 = do
  (flags, d1) ← byte_or for_flags d0
  (timestamp, d2) ← slice_or for_timestamp 8 d1
  (id, d3) ← short_or for_id_length for_id d2
  (sender, d4) ← short_or for_sender_length for_sender d3
  (content_len, d5) ← slice_or for_content_length 2 d4
  (content, d6) ← slice_or for_content (from_be_bytes content_len) d5
  parse_optional_fields flags id sender content d6

-- `push(len as u8)`, `extend_from_slice`
unfoldable pub push_short : Bytes → Bytes
push_short bytes = (length bytes % 2 ^ 8) ∷ bytes

unfoldable pub push_channel : Option Text → Bytes
push_channel none = []
push_channel (some channel) = push_short channel

-- The payload; the source returns the id beside it.
unfoldable pub create_bitchat_message_payload_full :
    Text → Text → Option Text → Bool → Text → ℕ → Text → Bytes
create_bitchat_message_payload_full sender content channel is_private sender_peer_id timestamp_ms
      id =
    let flags : ℕ = if is_private then bit_or 0 msg_flag_is_private else 0 in
    bit_or flags msg_flag_has_sender_peer_id
    ∷ (to_be_bytes 8 timestamp_ms
        ++ (push_short id
            ++ (push_short sender
                ++ (to_be_bytes 2 (length content % 2 ^ 16)
                    ++ (content ++ (push_channel channel ++ push_short sender_peer_id))))))

-- `"00000000"`
abbrev pub zero_peer_id : Text
zero_peer_id = b'0' ∷ b'0' ∷ b'0' ∷ b'0' ∷ b'0' ∷ b'0' ∷ b'0' ∷ b'0' ∷ []

-- `encrypt_with_key` is the AES-256-GCM of the encryption service; the time and the id of the
-- fallback, which is not encrypted, are drawn again. The id is returned with the payload.
unfoldable pub create_encrypted_channel_message_payload :
    (Bytes → Bytes → Option Bytes)
    → Text
    → Text
    → Text
    → Bytes
    → Text
    → ℕ
    → Text
    → ℕ
    → Text
    → Bytes × Text
create_encrypted_channel_message_payload encrypt_with_key sender content channel channel_key
      sender_peer_id timestamp_ms id fallback_ms fallback_id =
    elim (encrypt_with_key content channel_key) [
      | none ↦ (
        create_bitchat_message_payload_full sender content (some channel) false zero_peer_id
            fallback_ms fallback_id,
        fallback_id,
      )
      | some encrypted ↦ (
        bit_or (bit_or msg_flag_has_channel msg_flag_is_encrypted) msg_flag_has_sender_peer_id
            ∷ (to_be_bytes 8 timestamp_ms
                ++ (push_short id
                    ++ (push_short sender
                        ++ (to_be_bytes 2 (length encrypted % 2 ^ 16)
                            ++ (encrypted ++ (push_short sender_peer_id ++ push_short channel)))))),
        id,
      )
    ]
