-- ===== src/Noise/Handshake.antt =====
-- `NoiseHandshakeState` of src/noise_protocol.rs: the messages of a handshake, token by token. A
-- fresh ephemeral secret is an argument, for the random one that a message draws.
pub mod Keys
pub mod Party
pub mod Agreement
use bitchat_tui.Base.{
  ℕ, ◌+◌, [], ◌∷◌, ◌++◌, List, Bool, true, false, if◌then◌else◌, leb, ◌==◌, not, Option, none, some,
  length, get_or, Result, ok, err, panic,
}
use bitchat_tui.Bytes.{Bytes, split}
use bitchat_tui.Text.{Text}
use bitchat_tui.Noise.Cipher.{NoiseError, NoiseCipherState}
use bitchat_tui.Noise.Action.{
  Action, ◌>>=◌, ◌>>◌, pure, gets, modify, raise, raise_if, or_raise, zoom,
}
use bitchat_tui.Noise.Symmetric.{
  Crypto, NoiseSymmetricState, new_symmetric, has_key, mix_hash, mix_key, encrypt_and_hash,
  decrypt_and_hash, split_ciphers,
}
use bitchat_tui.Noise.Handshake.Keys.{validate_public_key}

pub data NoisePattern : Type 0 where
  xx ik nk : NoisePattern

pub data NoiseRole : Type 0 where
  initiator responder : NoiseRole

pub data NoiseMessagePattern : Type 0 where
  token_e token_s token_ee token_es token_se token_ss : NoiseMessagePattern

unfoldable pub message_patterns_of : NoisePattern → List (List NoiseMessagePattern)
message_patterns_of xx =
    (token_e ∷ []) ∷ (token_e ∷ token_ee ∷ token_s ∷ token_es ∷ []) ∷ (token_s ∷ token_se ∷ []) ∷ []
message_patterns_of ik =
    (token_e ∷ token_es ∷ token_s ∷ token_ss ∷ []) ∷ (token_e ∷ token_ee ∷ token_se ∷ []) ∷ []
message_patterns_of nk = (token_e ∷ token_es ∷ []) ∷ (token_e ∷ token_ee ∷ []) ∷ []

unfoldable pub pattern_name : NoisePattern → Text
pattern_name xx = b'X' ∷ b'X' ∷ []
pattern_name ik = b'I' ∷ b'K' ∷ []
pattern_name nk = b'N' ∷ b'K' ∷ []

-- "Noise_<pattern>_25519_ChaChaPoly_SHA256"
unfoldable pub full_name : NoisePattern → Text
full_name noise_pattern =
    (b'N' ∷ b'o' ∷ b'i' ∷ b's' ∷ b'e' ∷ b'_' ∷ [])
    ++ (pattern_name noise_pattern
        ++ (b'_' ∷ b'2' ∷ b'5' ∷ b'5' ∷ b'1' ∷ b'9' ∷ b'_' ∷ b'C' ∷ b'h' ∷ b'a' ∷ b'C' ∷ b'h' ∷ b'a'
            ∷ b'P' ∷ b'o' ∷ b'l' ∷ b'y' ∷ b'_' ∷ b'S' ∷ b'H' ∷ b'A' ∷ b'2' ∷ b'5' ∷ b'6' ∷ []))

pub record NoiseHandshakeState : Type 0 where
  pub role : NoiseRole
  pub noise_pattern : NoisePattern
  pub symmetric_state : NoiseSymmetricState
  pub local_static_private : Option Bytes
  pub local_static_public : Option Bytes
  pub local_ephemeral_private : Option Bytes
  pub local_ephemeral_public : Option Bytes
  pub remote_static_public : Option Bytes
  pub remote_ephemeral_public : Option Bytes
  pub message_patterns : List (List NoiseMessagePattern)
  pub current_pattern : ℕ

abbrev pub Handshake : Type 0 → Type 0
Handshake A = Action NoiseHandshakeState A

abbrev pub on_symmetric : {A : Type 0} → Action NoiseSymmetricState A → Handshake A
on_symmetric m = zoom (λ h. h.symmetric_state) (λ t h. record h { symmetric_state = t }) m

module _ (crypto : Crypto) where
  -- The empty prologue, and for an initiator of IK or NK the static key that it knows.
  unfoldable pub mix_pre_message_keys :
      NoisePattern → NoiseRole → Option Bytes → NoiseSymmetricState → NoiseSymmetricState
  mix_pre_message_keys xx role remote_static t = mix_hash crypto [] t
  mix_pre_message_keys _ initiator (some remote_static) t =
      mix_hash crypto remote_static (mix_hash crypto [] t)
  mix_pre_message_keys _ _ _ t = mix_hash crypto [] t

  unfoldable pub new_handshake :
      NoiseRole → NoisePattern → Option Bytes → Option Bytes → NoiseHandshakeState
  new_handshake role noise_pattern local_static_key remote_static_key = record {
    role = role;
    noise_pattern = noise_pattern;
    symmetric_state =
        mix_pre_message_keys noise_pattern role remote_static_key
          (new_symmetric crypto (full_name noise_pattern));
    local_static_private = local_static_key;
    local_static_public = elim local_static_key [
      | some secret ↦ some (crypto.public_of secret)
      | none ↦ none
    ];
    local_ephemeral_private = none;
    local_ephemeral_public = none;
    remote_static_public = remote_static_key;
    remote_ephemeral_public = none;
    message_patterns = message_patterns_of noise_pattern;
    current_pattern = 0;
  }

  -- The shared secret of two keys, if both are there, into the chaining key.
  unfoldable pub mix_dh :
      (NoiseHandshakeState → Option Bytes)
      → (NoiseHandshakeState → Option Bytes)
      → Handshake (Unit {0})
  mix_dh secret public = do
    local_secret ← (λ h. or_raise NoiseError.missing_keys (secret h) h)
    remote_public ← (λ h. or_raise NoiseError.missing_keys (public h) h)
    on_symmetric (modify (mix_key crypto (crypto.diffie_hellman local_secret remote_public)))

  -- The matches of both methods on EE, ES, SE and SS; the direction depends on the role.
  unfoldable pub mix_token : NoiseMessagePattern → Handshake (Unit {0})
  mix_token token_e h = pure tt h
  mix_token token_s h = pure tt h
  mix_token token_ee h = mix_dh (λ h. h.local_ephemeral_private) (λ h. h.remote_ephemeral_public) h
  mix_token token_es h = elim h.role [
    | initiator ↦ mix_dh (λ h. h.local_ephemeral_private) (λ h. h.remote_static_public) h
    | responder ↦ mix_dh (λ h. h.local_static_private) (λ h. h.remote_ephemeral_public) h
  ]
  mix_token token_se h = elim h.role [
    | initiator ↦ mix_dh (λ h. h.local_static_private) (λ h. h.remote_ephemeral_public) h
    | responder ↦ mix_dh (λ h. h.local_ephemeral_private) (λ h. h.remote_static_public) h
  ]
  mix_token token_ss h = mix_dh (λ h. h.local_static_private) (λ h. h.remote_static_public) h

  -- One round of the loop of `write_message`: what is pushed.
  unfoldable pub write_token : Bytes → NoiseMessagePattern → Handshake Bytes
  write_token ephemeral token_e = do
    let public = crypto.public_of ephemeral
    modify (λ h. record h {
      local_ephemeral_private = some ephemeral;
      local_ephemeral_public = some public;
    })
    on_symmetric (modify (mix_hash crypto public))
    pure public
  write_token ephemeral token_s = do
    static_public ← (λ h. or_raise NoiseError.missing_local_static_key h.local_static_public h)
    on_symmetric (encrypt_and_hash crypto static_public)
  write_token ephemeral t = do mix_token t; pure []

  unfoldable pub write_tokens : Bytes → List NoiseMessagePattern → Handshake Bytes
  write_tokens ephemeral [] = pure []
  write_tokens ephemeral (t ∷ ts) = do
    pushed ← write_token ephemeral t
    rest ← write_tokens ephemeral ts
    pure (pushed ++ rest)

  unfoldable pub is_handshake_complete : NoiseHandshakeState → Bool
  is_handshake_complete h = leb (length h.message_patterns) h.current_pattern

  unfoldable pub next_pattern : NoiseHandshakeState → NoiseHandshakeState
  next_pattern h = record h { current_pattern = h.current_pattern + 1 }

  unfoldable pub write_message : Bytes → Bytes → Handshake Bytes
  write_message ephemeral payload = do
    complete ← gets is_handshake_complete
    raise_if complete NoiseError.handshake_complete
    tokens ← gets (λ h. get_or h.message_patterns h.current_pattern [])
    pushed ← write_tokens ephemeral tokens
    encrypted_payload ← on_symmetric (encrypt_and_hash crypto payload)
    modify next_pattern
    pure (pushed ++ encrypted_payload)

  -- `message[offset..offset + n]` behind the test of the length.
  unfoldable pub take_or : ℕ → Bytes → Handshake (Bytes × Bytes)
  take_or n message = or_raise NoiseError.invalid_message (split n message)

  -- One round of the loop of `read_message`: the message behind what was read.
  unfoldable pub read_token : NoiseMessagePattern → Bytes → Handshake Bytes
  read_token token_e message = do
    (ephemeral, rest) ← take_or 32 message
    modify (λ h. record h { remote_ephemeral_public = some ephemeral })
    on_symmetric (modify (mix_hash crypto ephemeral))
    pure rest
  read_token token_s message = do
    keyed ← gets (λ h. has_key h.symmetric_state.cipher_state)
    (static_data, rest) ← take_or (if keyed then 48 else 32) message
    decrypted_static ← on_symmetric (decrypt_and_hash crypto static_data)
    raise_if (not (length decrypted_static == 32)) NoiseError.invalid_message
    elim (validate_public_key decrypted_static) [
      | ok key ↦ (do modify (λ h. record h { remote_static_public = some key }); pure rest)
      | err refused ↦ raise NoiseError.authentication_failure
      | panic ↦ raise NoiseError.authentication_failure
    ]
  read_token t message = do mix_token t; pure message

  unfoldable pub read_tokens : List NoiseMessagePattern → Bytes → Handshake Bytes
  read_tokens [] message = pure message
  read_tokens (t ∷ ts) message = do rest ← read_token t message; read_tokens ts rest

  -- "Continue handshake even if payload decryption fails": an error gives an empty payload.
  unfoldable pub read_payload : Bytes → Handshake Bytes
  read_payload payload h =
      let (h', r) = on_symmetric (decrypt_and_hash crypto payload) h in
      elim r [ ok decrypted ↦ (h', ok decrypted) | err ignored ↦ (h', ok []) | panic ↦ (h', panic) ]

  unfoldable pub read_message : Bytes → Handshake Bytes
  read_message message = do
    complete ← gets is_handshake_complete
    raise_if complete NoiseError.handshake_complete
    tokens ← gets (λ h. get_or h.message_patterns h.current_pattern [])
    payload ← read_tokens tokens message
    decrypted_payload ← read_payload payload
    modify next_pattern
    pure decrypted_payload

  -- Send cipher and receive cipher.
  unfoldable pub get_transport_ciphers :
      NoiseHandshakeState → Result NoiseError (NoiseCipherState × NoiseCipherState)
  get_transport_ciphers h =
      if not (is_handshake_complete h)
      then err NoiseError.handshake_not_complete
      else (let (c1, c2) = split_ciphers crypto h.symmetric_state in
          ok (elim h.role [ initiator ↦ (c1, c2) | responder ↦ (c2, c1) ]))
