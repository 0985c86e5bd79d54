-- ===== src/Noise/Symmetric.antt =====
-- `NoiseSymmetricState` of src/noise_protocol.rs. SHA-256, HMAC-SHA256 and X25519 are parameters, as
-- the AEAD crate is; keys and digests are byte strings.
pub mod Laws
use bitchat_tui.Base.{
  ℕ, zero, suc, ◌+◌, ◌-◌, ◌%◌, ◌^◌, [], ◌∷◌, ◌++◌, List, Bool, true, false, if◌then◌else◌, leb,
  ◌==◌, Option, none, some, length, replicate, get_or, Result, ok, err, panic,
}
use bitchat_tui.Bytes.{Bytes}
use bitchat_tui.Text.{Text}
use bitchat_tui.Noise.Cipher.{
  Aead, NoiseError, NoiseCipherState, initialize_key, new_with_key, encrypt, decrypt,
}
use bitchat_tui.Noise.Action.{Action, ◌>>=◌, ◌>>◌, pure, gets, modify, zoom}

pub record Crypto : Type 0 where
  pub aead : Aead
  pub sha256 : Bytes → Bytes
  -- Key and message.
  pub hmac_sha256 : Bytes → Bytes → Bytes
  -- `PublicKey::from` of a secret.
  pub public_of : Bytes → Bytes
  -- Secret and public key.
  pub diffie_hellman : Bytes → Bytes → Bytes

pub record NoiseSymmetricState : Type 0 where
  pub cipher_state : NoiseCipherState
  pub chaining_key : Bytes
  pub hash : Bytes

-- `NoiseCipherState::new`
unfoldable pub new_cipher : NoiseCipherState
new_cipher = record {
  key = none;
  nonce = 0;
  use_extracted_nonce = false;
  replay_window = [];
  highest_received_nonce = 0;
}

unfoldable pub has_key : NoiseCipherState → Bool
has_key s = elim s.key [ some _ ↦ true | none ↦ false ]

module _ (crypto : Crypto) where
  unfoldable pub new_symmetric : Text → NoiseSymmetricState
  new_symmetric protocol_name =
      let hash =
        if leb (length protocol_name) 32
        then protocol_name ++ replicate (32 - length protocol_name) 0
        else crypto.sha256 protocol_name in
      record { cipher_state = new_cipher; chaining_key = hash; hash = hash }

  -- The outputs `i` to `i + count - 1`.
  unfoldable pub hkdf_loop : ℕ → ℕ → Bytes → Bytes → List Bytes
  hkdf_loop zero i temp_key current = []
  hkdf_loop (suc count) i temp_key current =
      let output = crypto.hmac_sha256 temp_key (current ++ (i % 2 ^ 8 ∷ [])) in
      output ∷ hkdf_loop count (i + 1) temp_key output

  unfoldable pub hkdf : Bytes → Bytes → ℕ → List Bytes
  hkdf chaining_key input_key_material num_outputs =
      hkdf_loop num_outputs 1 (crypto.hmac_sha256 chaining_key input_key_material) []

  unfoldable pub mix_hash : Bytes → NoiseSymmetricState → NoiseSymmetricState
  mix_hash bytes s = record s { hash = crypto.sha256 (s.hash ++ bytes) }

  unfoldable pub mix_key : Bytes → NoiseSymmetricState → NoiseSymmetricState
  mix_key input_key_material s =
      let output = hkdf s.chaining_key input_key_material 2 in
      record s {
        chaining_key = get_or output 0 [];
        cipher_state = initialize_key (get_or output 1 []) s.cipher_state;
      }

  unfoldable pub mix_key_and_hash : Bytes → NoiseSymmetricState → NoiseSymmetricState
  mix_key_and_hash input_key_material s =
      let output = hkdf s.chaining_key input_key_material 3 in
      let s' = mix_hash (get_or output 1 []) (record s { chaining_key = get_or output 0 [] }) in
      record s' { cipher_state = initialize_key (get_or output 2 []) s'.cipher_state }

  -- The cipher's method, called with the current hash.
  unfoldable pub with_cipher :
      (NoiseCipherState → NoiseCipherState × Result NoiseError Bytes)
      → Action NoiseSymmetricState Bytes
  with_cipher m = zoom (λ s. s.cipher_state) (λ c s. record s { cipher_state = c }) m

  unfoldable pub encrypt_and_hash : Bytes → Action NoiseSymmetricState Bytes
  encrypt_and_hash plaintext s =
      if has_key s.cipher_state
      then (do
        ciphertext ← with_cipher (encrypt crypto.aead plaintext s.hash)
        modify (mix_hash ciphertext)
        pure ciphertext)
          s
      else (mix_hash plaintext s, ok plaintext)

  -- With a key, an empty ciphertext is an empty plaintext.
  unfoldable pub decrypt_and_hash : Bytes → Action NoiseSymmetricState Bytes
  decrypt_and_hash ciphertext s =
      if has_key s.cipher_state
      then (if length ciphertext == 0
          then (mix_hash ciphertext s, ok [])
          else (do
            plaintext ← with_cipher (decrypt crypto.aead ciphertext s.hash)
            modify (mix_hash ciphertext)
            pure plaintext)
              s)
      else (mix_hash ciphertext s, ok ciphertext)

  -- The two transport ciphers; they take the nonce from the message.
  unfoldable pub split_ciphers : NoiseSymmetricState → NoiseCipherState × NoiseCipherState
  split_ciphers s =
      let output = hkdf s.chaining_key [] 2 in
      (new_with_key (get_or output 0 []) true, new_with_key (get_or output 1 []) true)
