-- ===== src/Payload/Message/RoundTrip.antt =====
-- What the parser reads from the message payloads that the program writes.
use bitchat_tui.Base.{
  ℕ, ◌%◌, ◌^◌, ◌<◌, ◌≤◌, ◌≡◌, refl, arith, [], ◌∷◌, ◌++◌, Bool, true, false, Option, none, some,
  length, ok, ◌∙◌, bit_or, append-nil, if◌then◌else◌,
}
use bitchat_tui.Bytes.{Bytes, to_be_bytes}
use bitchat_tui.Bytes.Laws.{length-to_be_bytes, from_be_bytes-to_be_bytes}
use bitchat_tui.Bytes.Cursor.{slice_or-append}
use bitchat_tui.Text.{Text}
use bitchat_tui.Text.Utf8.{is_utf8, from_utf8_lossy_valid}
use bitchat_tui.Payload.Message.{
  BitchatMessage, TooShort, for_timestamp, for_id_length, for_id, for_sender_length, for_sender,
  for_content_length, for_content, for_original_sender_length, for_original_sender,
  for_recipient_nickname_length, for_recipient_nickname, for_sender_peer_id_length,
  for_sender_peer_id, for_channel_length, for_channel, parse_bitchat_message_payload,
  create_bitchat_message_payload_full, create_encrypted_channel_message_payload, push_short,
  push_channel, short_or, byte_or, skip_if, skip_mentions, parse_channel, parse_optional_fields,
}

pub short_or-push_short :
    (e_length e : TooShort) (bytes rest : Bytes)
    → length bytes < 256
    → short_or e_length e (push_short bytes ++ rest) ≡ ok (bytes, rest)
unfolding short_or push_short byte_or
short_or-push_short e_length e bytes rest h =
    let fits : length bytes % 2 ^ 8 ≡ length bytes = omega arith in
    rw fits (slice_or-append e (length bytes) bytes rest refl)

short_or-push_short_end :
    (e_length e : TooShort) (bytes : Bytes)
    → length bytes < 256
    → short_or e_length e (push_short bytes) ≡ ok (bytes, [])
short_or-push_short_end e_length e bytes h =
    rw (← append-nil (push_short bytes)) (short_or-push_short e_length e bytes [] h)

skip_present :
    (e_length e : TooShort) (bytes rest : Bytes)
    → length bytes < 256
    → skip_if true e_length e (push_short bytes ++ rest) ≡ ok rest
unfolding skip_if
skip_present e_length e bytes rest h = ground (arith, short_or-push_short e_length e bytes rest h)

skip_absent : (e_length e : TooShort) (bytes : Bytes) → skip_if false e_length e bytes ≡ ok bytes
unfolding skip_if
skip_absent e_length e bytes = refl

-- The payload, read up to its content.
parse_head :
    (flags timestamp_ms : ℕ) (id sender content d6 : Bytes)
    → length id < 256
    → length sender < 256
    → length content < 2 ^ 16
    → parse_bitchat_message_payload (
        flags
        ∷ (to_be_bytes 8 timestamp_ms
            ++ (push_short id
                ++ (push_short sender
                    ++ (to_be_bytes 2 (length content % 2 ^ 16) ++ (content ++ d6))))))
      ≡ parse_optional_fields flags id sender content d6
unfolding parse_bitchat_message_payload byte_or
parse_head flags timestamp_ms id sender content d6 hi hs hc =
    let fits : length content % 2 ^ 16 ≡ length content = omega arith in
    let d5 = content ++ d6 in
    let d4 = to_be_bytes 2 (length content) ++ d5 in
    let d3 = push_short sender ++ d4 in
    rw fits (
      ground (
        arith,
        slice_or-append for_timestamp 8 (to_be_bytes 8 timestamp_ms) (push_short id ++ d3)
            (length-to_be_bytes 8 timestamp_ms),
        short_or-push_short for_id_length for_id id d3 hi,
        short_or-push_short for_sender_length for_sender sender d4 hs,
        slice_or-append for_content_length 2 (to_be_bytes 2 (length content)) d5
            (length-to_be_bytes 2 (length content)),
        from_be_bytes-to_be_bytes 2 (length content) hc,
        slice_or-append for_content (length content) content d6 refl,
      ))

-- The message that a payload without encryption stands for.
abbrev pub plain_message : Text → Text → Text → BitchatMessage
plain_message id sender content = record {
  id = id;
  sender = sender;
  content = content;
  channel = none;
  is_encrypted = false;
  encrypted_content = none;
}

-- The message that an encrypted channel payload stands for.
abbrev pub encrypted_message : Text → Text → Text → Bytes → BitchatMessage
encrypted_message id sender channel encrypted = record {
  id = id;
  sender = sender;
  content = [];
  channel = some channel;
  is_encrypted = true;
  encrypted_content = some encrypted;
}

-- Behind the content, a payload that is not encrypted has the sender's peer id announced, and the
-- parser skips the first field for it.
optional_plain :
    (is_private : Bool) (id sender content field rest : Bytes)
    → length field < 256
    → is_utf8 id ≡ true
    → is_utf8 sender ≡ true
    → is_utf8 content ≡ true
    → parse_optional_fields
        (bit_or (if is_private then 2 else 0) 16)
        id
        sender
        content
        (push_short field ++ rest)
      ≡ ok (plain_message id sender content)
unfolding parse_optional_fields skip_mentions parse_channel
optional_plain false id sender content field rest hf ti ts tc =
    rw
      (
        skip_absent for_original_sender_length for_original_sender (push_short field ++ rest),
        skip_absent for_recipient_nickname_length for_recipient_nickname (push_short field ++ rest),
        skip_present for_sender_peer_id_length for_sender_peer_id field rest hf,
        from_utf8_lossy_valid id ti,
        from_utf8_lossy_valid sender ts,
        from_utf8_lossy_valid content tc,
      )
      refl
optional_plain true id sender content field rest hf ti ts tc =
    rw
      (
        skip_absent for_original_sender_length for_original_sender (push_short field ++ rest),
        skip_absent for_recipient_nickname_length for_recipient_nickname (push_short field ++ rest),
        skip_present for_sender_peer_id_length for_sender_peer_id field rest hf,
        from_utf8_lossy_valid id ti,
        from_utf8_lossy_valid sender ts,
        from_utf8_lossy_valid content tc,
      )
      refl

short_channel : (c : Text) → length (push_channel (some c)) ≤ 256 → length c < 256
unfolding push_channel push_short
short_channel c h = omega arith

-- A message payload is read back with its id, its sender and its content, not encrypted, and always
-- without a channel: also where `create_bitchat_message_payload_full` was given one, for it sets no
-- channel flag, and the parser takes the channel for the sender's peer id. The texts are UTF-8, the
-- id, the sender, the channel and the peer id have at most 255 bytes, the content at most 65535.
pub parse-create_full :
    (sender content : Text) (channel : Option Text) (is_private : Bool) (sender_peer_id : Text)
    (timestamp_ms : ℕ) (id : Text)
    → length id < 256
    → length sender < 256
    → length content < 2 ^ 16
    → length (push_channel channel) ≤ 256
    → length sender_peer_id < 256
    → is_utf8 id ≡ true
    → is_utf8 sender ≡ true
    → is_utf8 content ≡ true
    → parse_bitchat_message_payload (
        create_bitchat_message_payload_full sender content channel is_private sender_peer_id
          timestamp_ms id)
      ≡ ok (plain_message id sender content)
unfolding create_bitchat_message_payload_full push_channel
parse-create_full sender content none is_private peer ts id hi hs hc hch hp ti tss tc =
    let flags = bit_or (if is_private then 2 else 0) 16 in
    rw (← append-nil (push_short peer)) (
      parse_head flags ts id sender content (push_short peer ++ []) hi hs hc
      ∙ optional_plain is_private id sender content peer [] hp ti tss tc)
parse-create_full sender content (some c) is_private peer ts id hi hs hc hch hp ti tss tc =
    let flags = bit_or (if is_private then 2 else 0) 16 in
    parse_head flags ts id sender content (push_short c ++ push_short peer) hi hs hc
    ∙ optional_plain is_private id sender content c (push_short peer) (short_channel c hch) ti tss
        tc

optional_encrypted :
    (id sender encrypted peer channel : Bytes)
    → length peer < 256
    → length channel < 256
    → is_utf8 id ≡ true
    → is_utf8 sender ≡ true
    → is_utf8 channel ≡ true
    → parse_optional_fields 0xD0 id sender encrypted (push_short peer ++ push_short channel)
      ≡ ok (encrypted_message id sender channel encrypted)
unfolding parse_optional_fields skip_mentions parse_channel
optional_encrypted id sender encrypted peer channel hp hch ti ts tch =
    rw
      (
        skip_absent for_original_sender_length for_original_sender
            (push_short peer ++ push_short channel),
        skip_absent for_recipient_nickname_length for_recipient_nickname
            (push_short peer ++ push_short channel),
        skip_present for_sender_peer_id_length for_sender_peer_id peer (push_short channel) hp,
        short_or-push_short_end for_channel_length for_channel channel hch,
        from_utf8_lossy_valid id ti,
        from_utf8_lossy_valid sender ts,
        from_utf8_lossy_valid channel tch,
      )
      refl

-- An encrypted message to a channel is read back with its id, its sender, its channel and the
-- encrypted bytes, marked as encrypted, where the encryption succeeds with at most 65535 bytes; the
-- texts are UTF-8, and the id, the sender, the peer id and the channel have at most 255 bytes.
pub parse-create_encrypted :
    (encrypt_with_key : Bytes → Bytes → Option Bytes) (sender content channel : Text)
    (channel_key : Bytes) (sender_peer_id : Text) (timestamp_ms : ℕ) (id : Text) (fallback_ms : ℕ)
    (fallback_id : Text) (encrypted : Bytes)
    → encrypt_with_key content channel_key ≡ some encrypted
    → length id < 256
    → length sender < 256
    → length encrypted < 2 ^ 16
    → length channel < 256
    → length sender_peer_id < 256
    → is_utf8 id ≡ true
    → is_utf8 sender ≡ true
    → is_utf8 channel ≡ true
    → parse_bitchat_message_payload
        (create_encrypted_channel_message_payload encrypt_with_key sender content channel
          channel_key sender_peer_id timestamp_ms id fallback_ms fallback_id).0
      ≡ ok (encrypted_message id sender channel encrypted)
unfolding create_encrypted_channel_message_payload
parse-create_encrypted encrypt_with_key sender content channel key peer ts id fms fid encrypted he
      hi hs hc hch hp ti tss tch =
    rw (he, create_encrypted_channel_message_payload)
      (parse_head 0xD0 ts id sender encrypted (push_short peer ++ push_short channel) hi hs hc
        ∙ optional_encrypted id sender encrypted peer channel hp hch ti tss tch)
