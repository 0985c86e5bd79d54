-- ===== src/Payload/Tlv/Fields.antt =====
-- What the field parsers read from arbitrary sequences of fields, and from what the program writes.
use bitchat_tui.Base.{
  ℕ, zero, suc, ◌%◌, ◌^◌, ◌≤◌, ◌<◌, ◌≡◌, refl, arith, [], ◌∷◌, ◌++◌, List, Option, none, some, true,
  length, length-append, Result, ok, ok_or, ap, ◌==◌, if◌then◌else◌, ◌>>=◌, All, append-nil,
}
use bitchat_tui.Bytes.{Bytes}
use bitchat_tui.Bytes.Cursor.{slice_or-append}
use bitchat_tui.Text.{Text}
use bitchat_tui.Text.Utf8.{from_utf8, is_utf8}
use bitchat_tui.Payload.Tlv.{
  TlvError, tlv_loop, push_field, private_field, response_field, create_private_noise_payload,
  parse_private_noise_payload, create_verify_noise_response_payload,
  parse_verify_noise_response_payload, signature_message,
}

-- A sequence of fields as it is sent.
unfoldable pub push_fields : List (ℕ × Bytes) → Bytes
push_fields [] = []
push_fields ((t, value) ∷ fields) = push_field t value ++ push_fields fields

-- The match on the type, applied to each field in turn.
unfoldable pub read_fields {ℓ} :
    {S : Type ℓ} → (ℕ → Bytes → S → Result TlvError S) → List (ℕ × Bytes) → S → Result TlvError S
read_fields field [] s = ok s
read_fields field ((t, value) ∷ fields) s = field t value s >>= λ s'. read_fields field fields s'

abbrev pub IsShort : ℕ × Bytes → Type 0
IsShort (t, value) = length value < 256

-- The loop reads any sequence of fields one after the other.
pub tlv_loop-push_fields {ℓ} :
    {S : Type ℓ} (field : ℕ → Bytes → S → Result TlvError S) (fields : List (ℕ × Bytes)) (fuel : ℕ)
    (s : S)
    → All IsShort fields
    → length (push_fields fields) ≤ fuel
    → tlv_loop field fuel (push_fields fields) s ≡ read_fields field fields s
unfolding tlv_loop push_fields read_fields push_field
tlv_loop-push_fields field [] zero s short h = refl
tlv_loop-push_fields field [] (suc fuel) s short h = refl
tlv_loop-push_fields field ((t, value) ∷ fields) zero s short h = absurd (omega arith)
tlv_loop-push_fields {S = S} field ((t, value) ∷ fields) (suc fuel) s (hv, short) h =
    let fits : length value % 2 ^ 8 ≡ length value = omega arith in
    let cut =
      slice_or-append TlvError.length_exceeds_payload (length value) value (push_fields fields)
        refl in
    let fuel_left : length (push_fields fields) ≤ fuel =
      omega (arith, length-append value (push_fields fields)) in
    let same : (s' : S)
        → tlv_loop field fuel (push_fields fields) s' ≡ read_fields field fields s' =
      λ s'. tlv_loop-push_fields field fields fuel s' short fuel_left in
    rw (fits, cut) (ap (λ next. field t value s >>= next) (λ i s'. same s' i))

-- The value of the last field of type `t`, or `found` where there is none.
unfoldable pub latest : ℕ → Option Bytes → List (ℕ × Bytes) → Option Bytes
latest t found [] = found
latest t found ((u, value) ∷ fields) = latest t (if u == t then some value else found) fields

-- The fields that a private message reads as text are text.
abbrev pub IsPrivateField : ℕ × Bytes → Type 0
IsPrivateField (t, value) = t < 2 → is_utf8 value ≡ true

private_fields :
    (fields : List (ℕ × Bytes)) (message_id content : Option Text)
    → All IsPrivateField fields
    → read_fields private_field fields (message_id, content)
      ≡ ok (latest 0x00 message_id fields, latest 0x01 content fields)
unfolding read_fields latest private_field from_utf8
private_fields [] message_id content h = refl
private_fields ((t, value) ∷ fields) message_id content (hv, h) = ground (
  arith,
  private_fields fields (some value) content h,
  private_fields fields message_id (some value) h,
  private_fields fields message_id content h,
)

-- A private payload is read as the last message id and the last content among its fields, whatever
-- the order of the fields and whatever fields of other types stand between them, and the error
-- names the first of the two that is missing; the fields are shorter than 256 bytes, and those of
-- the two types are UTF-8.
pub parse_private-push_fields :
    (fields : List (ℕ × Bytes))
    → All IsShort fields
    → All IsPrivateField fields
    → parse_private_noise_payload (push_fields fields) ≡ (
        ok_or (TlvError.missing 0x00) (latest 0x00 none fields) >>= λ message_id.
        ok_or (TlvError.missing 0x01) (latest 0x01 none fields) >>= λ content.
        ok (message_id, content))
unfolding parse_private_noise_payload
parse_private-push_fields fields short text =
    rw
      (
        tlv_loop-push_fields private_field fields (length (push_fields fields)) (none, none) short
            (omega arith),
        private_fields fields none none text,
      )
      refl

-- A private message is created whenever its id and its content have at most 255 bytes, and behind
-- its type byte the receiver reads both back; the id and the content are UTF-8.
pub parse-create_private :
    (message_id content : Text)
    → length message_id < 256
    → length content < 256
    → is_utf8 message_id ≡ true
    → is_utf8 content ≡ true
    → (body : Bytes) × (create_private_noise_payload message_id content ≡ ok (1 ∷ body))
      × (parse_private_noise_payload body ≡ ok (message_id, content))
unfolding create_private_noise_payload push_fields latest
parse-create_private message_id content hm hc tm tc =
    let fields : List (ℕ × Bytes) = (0x00, message_id) ∷ (0x01, content) ∷ [] in
    (
      push_fields fields,
      ground (arith, append-nil (push_field 0x01 content)),
      parse_private-push_fields fields (hm, (hc, tt)) (λ _. tm, (λ _. tc, tt)),
    )

response_fields :
    (noise_key_hex : Text) (nonce_a sig : Bytes)
    → is_utf8 noise_key_hex ≡ true
    → read_fields response_field
        ((0x01, noise_key_hex) ∷ (0x02, nonce_a) ∷ (0x03, sig) ∷ [])
        (none, none, none)
      ≡ ok (some noise_key_hex, some nonce_a, some sig)
unfolding read_fields response_field from_utf8
response_fields noise_key_hex nonce_a sig h = ground arith

-- What is to be signed: the text "bitchat-verify-resp-v1", a byte that counts the key's bytes, the
-- key and the nonce.
abbrev pub signed_bytes : Text → Bytes → Bytes
signed_bytes noise_key_hex nonce_a =
    0x62
    ∷ 0x69
    ∷ 0x74
    ∷ 0x63
    ∷ 0x68
    ∷ 0x61
    ∷ 0x74
    ∷ 0x2D
    ∷ 0x76
    ∷ 0x65
    ∷ 0x72
    ∷ 0x69
    ∷ 0x66
    ∷ 0x79
    ∷ 0x2D
    ∷ 0x72
    ∷ 0x65
    ∷ 0x73
    ∷ 0x70
    ∷ 0x2D
    ∷ 0x76
    ∷ 0x31
    ∷ length noise_key_hex
    ∷ (noise_key_hex ++ nonce_a)

signature_message_lem :
    (noise_key_hex : Text) (nonce_a : Bytes)
    → length noise_key_hex < 256
    → signature_message noise_key_hex nonce_a ≡ signed_bytes noise_key_hex nonce_a
unfolding signature_message
signature_message_lem noise_key_hex nonce_a h =
    let fits : length noise_key_hex % 2 ^ 8 ≡ length noise_key_hex = omega arith in rw fits

-- A verification response carries the key, the nonce of the challenge and the signature over the
-- context text, the key with its length, and the nonce: behind the type byte it is read back, where each
-- of the three has at most 255 bytes and the key is UTF-8.
pub parse-create_verify_response :
    (sign : Bytes → Bytes) (noise_key_hex : Text) (nonce_a : Bytes)
    → length noise_key_hex < 256
    → length nonce_a < 256
    → length (sign (signed_bytes noise_key_hex nonce_a)) < 256
    → is_utf8 noise_key_hex ≡ true
    → (body : Bytes) × (create_verify_noise_response_payload sign noise_key_hex nonce_a
        ≡ ok (0x11 ∷ body))
      × (parse_verify_noise_response_payload body
          ≡ ok (noise_key_hex, nonce_a, sign (signed_bytes noise_key_hex nonce_a)))
unfolding create_verify_noise_response_payload parse_verify_noise_response_payload push_fields
parse-create_verify_response sign noise_key_hex nonce_a hk hn hs tk =
    let sig = sign (signed_bytes noise_key_hex nonce_a) in
    let signed = signature_message_lem noise_key_hex nonce_a hk in
    let fields : List (ℕ × Bytes) = (0x01, noise_key_hex) ∷ (0x02, nonce_a) ∷ (0x03, sig) ∷ [] in
    (
      push_fields fields,
      ground (arith, signed, append-nil (push_field 0x03 sig)),
      ground (
        arith,
        tlv_loop-push_fields response_field fields (length (push_fields fields)) (none, none, none)
            (hk, (hn, (hs, tt))) (omega arith),
        response_fields noise_key_hex nonce_a sig tk,
      ),
    )
