-- ===== src/Tests/Payloads.antt =====
-- Payloads: runs of the encoders and of the parsers.
use bitchat_tui.Base.{
  ℕ, ◌≤◌, ◌≡◌, refl, arith, [], ◌∷◌, List, true, none, some, ok, err, ok_or, ◌>>=◌, length,
}
use bitchat_tui.Bytes.{Bytes, split}
use bitchat_tui.Bytes.Cursor.{slice_or}
use bitchat_tui.Text.Utf8.{
  is_utf8, utf8_loop, utf8_char, utf8_char_width, is_second_byte, within, from_utf8,
  from_utf8_lossy, lossy_loop,
}
use bitchat_tui.Payload.Tlv.{
  TlvError, parse_private_noise_payload, create_private_noise_payload,
  parse_verify_noise_response_payload, create_verify_noise_response_payload, private_field,
  tlv_loop, challenge_field, parse_verify_noise_challenge_payload,
}
use bitchat_tui.Payload.Tlv.Fields.{
  push_fields, latest, parse_private-push_fields, parse-create_private,
  parse-create_verify_response,
}
use bitchat_tui.Payload.Message.{
  push_channel, push_short, parse_bitchat_message_payload, create_bitchat_message_payload_full,
  create_encrypted_channel_message_payload,
}
use bitchat_tui.Payload.Message.RoundTrip.{
  parse-create_full, parse-create_encrypted, plain_message, encrypted_message,
}
use bitchat_tui.Tests.Values.{greeting, signature}

utf8 : Unit {0}
unfolding is_utf8 utf8_loop utf8_char utf8_char_width is_second_byte within from_utf8
    from_utf8_lossy lossy_loop
utf8 = tt

-- The character U+00E9, then a first byte without its second one.
broken_text :
    from_utf8_lossy (0xC3 ∷ 0xA9 ∷ 0xE2 ∷ b'a' ∷ []) ≡ 0xC3 ∷ 0xA9 ∷ 0xEF ∷ 0xBF ∷ 0xBD ∷ b'a' ∷ []
unfolding utf8
broken_text = refl

greeting-is_utf8 : is_utf8 greeting ≡ true
unfolding utf8
greeting-is_utf8 = refl

-- A payload that ends behind a type byte.
truncated_private : parse_private_noise_payload (0 ∷ 1 ∷ b'a' ∷ 1 ∷ []) ≡ err TlvError.truncated
unfolding parse_private_noise_payload tlv_loop private_field slice_or split utf8
truncated_private = refl

-- A content without an id.
missing_id : parse_private_noise_payload (1 ∷ 1 ∷ b'a' ∷ []) ≡ err (TlvError.missing 0)
unfolding parse_private_noise_payload tlv_loop private_field slice_or split utf8
missing_id = refl

-- A challenge with a field of an unknown type in front.
challenge :
    parse_verify_noise_challenge_payload (9 ∷ 1 ∷ 0xFF ∷ 1 ∷ 2 ∷ b'a' ∷ b'b' ∷ 2 ∷ 1 ∷ 7 ∷ [])
    ≡ ok (b'a' ∷ b'b' ∷ [], 7 ∷ [])
unfolding parse_verify_noise_challenge_payload tlv_loop challenge_field slice_or split utf8
challenge = refl

-- An unknown field, an id, a content, and a second id.
abbrev some_fields : List (ℕ × Bytes)
some_fields = (7, 0xFF ∷ []) ∷ (0, b'a' ∷ []) ∷ (1, greeting) ∷ (0, b'b' ∷ []) ∷ []

parse_private-push_fields_example : parse_private_noise_payload (push_fields some_fields) ≡ (
    ok_or (TlvError.missing 0x00) (latest 0x00 none some_fields) >>= λ message_id.
    ok_or (TlvError.missing 0x01) (latest 0x01 none some_fields) >>= λ content.
    ok (message_id, content))
unfolding utf8
parse_private-push_fields_example =
    parse_private-push_fields some_fields
      (omega arith, (omega arith, (omega arith, (omega arith, tt))))
      (λ h. absurd (omega arith), (λ h. refl, (λ h. refl, (λ h. refl, tt))))

parse-create_private_example :
    (body : Bytes) × (create_private_noise_payload greeting greeting ≡ ok (1 ∷ body))
    × (parse_private_noise_payload body ≡ ok (greeting, greeting))
parse-create_private_example =
    parse-create_private greeting greeting (omega arith) (omega arith) greeting-is_utf8
      greeting-is_utf8

parse-create_verify_response_example :
    (body : Bytes) × (create_verify_noise_response_payload (λ m. signature) greeting (1 ∷ 2 ∷ [])
      ≡ ok (0x11 ∷ body))
    × (parse_verify_noise_response_payload body ≡ ok (greeting, 1 ∷ 2 ∷ [], signature))
parse-create_verify_response_example =
    parse-create_verify_response (λ m. signature) greeting (1 ∷ 2 ∷ []) (omega arith) (omega arith)
      (omega arith) greeting-is_utf8

channel_fits : length (push_channel (some greeting)) ≤ 256
unfolding push_channel push_short
channel_fits = omega arith

parse-create_full_example :
    parse_bitchat_message_payload (
      create_bitchat_message_payload_full greeting greeting
        (some greeting)
        true
        greeting
        5
        greeting)
    ≡ ok (plain_message greeting greeting greeting)
parse-create_full_example =
    parse-create_full greeting greeting (some greeting) true greeting 5 greeting (omega arith)
      (omega arith) (omega arith) channel_fits (omega arith) greeting-is_utf8 greeting-is_utf8
      greeting-is_utf8

parse-create_encrypted_example :
    parse_bitchat_message_payload
      (create_encrypted_channel_message_payload
        (λ text key. some (1 ∷ text))
        greeting
        greeting
        greeting
        []
        greeting
        5
        greeting
        6
        greeting).0
    ≡ ok (encrypted_message greeting greeting greeting (1 ∷ greeting))
parse-create_encrypted_example =
    parse-create_encrypted (λ text key. some (1 ∷ text)) greeting greeting greeting [] greeting 5
      greeting 6 greeting (1 ∷ greeting) refl (omega arith) (omega arith) (omega arith)
      (omega arith) (omega arith) greeting-is_utf8 greeting-is_utf8 greeting-is_utf8
