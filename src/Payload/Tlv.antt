-- ===== src/Payload/Tlv.antt =====
-- The payloads of src/payload_handling.rs that are sequences of fields, each a type byte, a length
-- byte and the value: private messages, verification challenges and verification responses.
pub mod Fields
use bitchat_tui.Base.{
  ℕ, zero, suc, ◌%◌, ◌^◌, [], ◌∷◌, ◌++◌, Bool, if◌then◌else◌, ltb, ◌==◌, not, Option, none, some,
  length, Result, ok, err, ◌>>=◌, ◌>>◌, ensure, ok_or,
}
use bitchat_tui.Bytes.{Bytes}
use bitchat_tui.Bytes.Cursor.{slice_or}
use bitchat_tui.Text.{Text}
use bitchat_tui.Text.Utf8.{from_utf8}

-- The messages of the errors, less the name of the payload; a field is named by its type byte.
pub data TlvError : Type 0 where
  truncated length_exceeds_payload : TlvError
  invalid_utf8 missing too_long : ℕ → TlvError

-- The loop that the parsers share. Each round takes two bytes at least, so the length of the
-- payload is enough fuel. `field` is the match on the type.
unfoldable pub tlv_loop {ℓ} :
    {S : Type ℓ} → (ℕ → Bytes → S → Result TlvError S) → ℕ → Bytes → S → Result TlvError S
tlv_loop field zero bytes s = ok s
tlv_loop field (suc fuel) [] s = ok s
tlv_loop field (suc fuel) (t ∷ []) s = err TlvError.truncated
tlv_loop field (suc fuel) (t ∷ len ∷ bytes) s = do
  (value, rest) ← slice_or TlvError.length_exceeds_payload len bytes
  s' ← field t value s
  tlv_loop field fuel rest s'

abbrev pub utf8_field : ℕ → Bytes → Result TlvError Text
utf8_field t value = ok_or (TlvError.invalid_utf8 t) (from_utf8 value)

abbrev pub noise_payload_private_message : ℕ
noise_payload_private_message = 0x01

abbrev pub noise_payload_verify_response : ℕ
noise_payload_verify_response = 0x11

-- `push(t)`, `push(len as u8)`, `extend_from_slice`
unfoldable pub push_field : ℕ → Bytes → Bytes
push_field t value = t ∷ (length value % 2 ^ 8) ∷ value

unfoldable pub create_private_noise_payload : Text → Text → Result TlvError Bytes
create_private_noise_payload message_id content = do
  ensure (not (ltb 255 (length message_id))) (TlvError.too_long 0x00)
  ensure (not (ltb 255 (length content))) (TlvError.too_long 0x01)
  ok (noise_payload_private_message ∷ (push_field 0x00 message_id ++ push_field 0x01 content))

unfoldable pub private_field :
    ℕ → Bytes → Option Text × Option Text → Result TlvError (Option Text × Option Text)
private_field t value (message_id, content) =
    if t == 0x00
    then (do value' ← utf8_field t value; ok (some value', content))
    else if t == 0x01
    then (do value' ← utf8_field t value; ok (message_id, some value'))
    else ok (message_id, content)

unfoldable pub parse_private_noise_payload : Bytes → Result TlvError (Text × Text)
parse_private_noise_payload bytes = do
  (message_id, content) ← tlv_loop private_field (length bytes) bytes (none, none)
  message_id' ← ok_or (TlvError.missing 0x00) message_id
  content' ← ok_or (TlvError.missing 0x01) content
  ok (message_id', content')

unfoldable pub parse_private_noise_ack_payload : Bytes → Option Text
parse_private_noise_ack_payload bytes = from_utf8 bytes

unfoldable pub challenge_field :
    ℕ → Bytes → Option Text × Option Bytes → Result TlvError (Option Text × Option Bytes)
challenge_field t value (noise_key_hex, nonce_a) =
    if t == 0x01
    then (do value' ← utf8_field t value; ok (some value', nonce_a))
    else if t == 0x02
    then ok (noise_key_hex, some value)
    else ok (noise_key_hex, nonce_a)

unfoldable pub parse_verify_noise_challenge_payload : Bytes → Result TlvError (Text × Bytes)
parse_verify_noise_challenge_payload bytes = do
  (noise_key_hex, nonce_a) ← tlv_loop challenge_field (length bytes) bytes (none, none)
  noise_key_hex' ← ok_or (TlvError.missing 0x01) noise_key_hex
  nonce_a' ← ok_or (TlvError.missing 0x02) nonce_a
  ok (noise_key_hex', nonce_a')

-- `VERIFY_RESPONSE_CONTEXT`
abbrev pub verify_response_context : Text
verify_response_context =
    b'b' ∷ b'i' ∷ b't' ∷ b'c' ∷ b'h' ∷ b'a' ∷ b't' ∷ b'-' ∷ b'v' ∷ b'e' ∷ b'r' ∷ b'i' ∷ b'f' ∷ b'y'
    ∷ b'-' ∷ b'r' ∷ b'e' ∷ b's' ∷ b'p' ∷ b'-' ∷ b'v' ∷ b'1' ∷ []

unfoldable pub signature_message : Text → Bytes → Bytes
signature_message noise_key_hex nonce_a =
    verify_response_context ++ ((length noise_key_hex % 2 ^ 8) ∷ (noise_key_hex ++ nonce_a))

-- `sign` is the Ed25519 signature of the encryption service.
unfoldable pub create_verify_noise_response_payload :
    (Bytes → Bytes) → Text → Bytes → Result TlvError Bytes
create_verify_noise_response_payload sign noise_key_hex nonce_a = do
  ensure (not (ltb 255 (length noise_key_hex))) (TlvError.too_long 0x01)
  ensure (not (ltb 255 (length nonce_a))) (TlvError.too_long 0x02)
  let sig = sign (signature_message noise_key_hex nonce_a)
  ensure (not (ltb 255 (length sig))) (TlvError.too_long 0x03)
  ok (
      noise_payload_verify_response
      ∷ (push_field 0x01 noise_key_hex ++ (push_field 0x02 nonce_a ++ push_field 0x03 sig)))

unfoldable pub response_field :
    ℕ
    → Bytes
    → Option Text × Option Bytes × Option Bytes
    → Result TlvError (Option Text × Option Bytes × Option Bytes)
response_field t value (noise_key_hex, nonce_a, sig) =
    if t == 0x01
    then (do value' ← utf8_field t value; ok (some value', nonce_a, sig))
    else if t == 0x02
    then ok (noise_key_hex, some value, sig)
    else if t == 0x03
    then ok (noise_key_hex, nonce_a, some value)
    else ok (noise_key_hex, nonce_a, sig)

unfoldable pub parse_verify_noise_response_payload : Bytes → Result TlvError (Text × Bytes × Bytes)
parse_verify_noise_response_payload bytes = do
  (noise_key_hex, nonce_a, sig) ← tlv_loop response_field (length bytes) bytes (none, none, none)
  noise_key_hex' ← ok_or (TlvError.missing 0x01) noise_key_hex
  nonce_a' ← ok_or (TlvError.missing 0x02) nonce_a
  sig' ← ok_or (TlvError.missing 0x03) sig
  ok (noise_key_hex', nonce_a', sig')
