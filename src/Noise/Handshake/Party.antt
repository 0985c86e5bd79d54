-- ===== src/Noise/Handshake/Party.antt =====
-- A party of an XX handshake, and its symmetric state.
use bitchat_tui.Base.{ℕ, ◌≡◌, refl, [], true, false, Option, none, some, length, ok}
use bitchat_tui.Bytes.{Bytes}
use bitchat_tui.Noise.Cipher.{initialize_key}
use bitchat_tui.Noise.Symmetric.{
  Crypto, NoiseSymmetricState, has_key, mix_hash, mix_key, encrypt_and_hash, decrypt_and_hash,
}
use bitchat_tui.Noise.Symmetric.Laws.{IsSealing, IsKeyed}
use bitchat_tui.Noise.Handshake.{NoiseRole, xx, NoiseHandshakeState, message_patterns_of}

-- What the crates promise: Diffie-Hellman agrees, and a public key has 32 bytes.
pub record IsAgreeing (crypto : Crypto) : Type 0 where
  pub seals : IsSealing crypto.aead
  pub agrees :
      (a b : Bytes)
      → crypto.diffie_hellman a (crypto.public_of b) ≡ crypto.diffie_hellman b (crypto.public_of a)
  pub size : (a : Bytes) → length (crypto.public_of a) ≡ 32

module _ (crypto : Crypto) where
  -- A party of an XX handshake, with what it knows after `n` messages.
  unfoldable pub party :
      NoiseRole
      → NoiseSymmetricState
      → Bytes
      → Option Bytes
      → Option Bytes
      → Option Bytes
      → ℕ
      → NoiseHandshakeState
  party role t static ephemeral remote_static remote_ephemeral n = record {
    role = role;
    noise_pattern = xx;
    symmetric_state = t;
    local_static_private = some static;
    local_static_public = some (crypto.public_of static);
    local_ephemeral_private = ephemeral;
    local_ephemeral_public = elim ephemeral [
      | some secret ↦ some (crypto.public_of secret)
      | none ↦ none
    ];
    remote_static_public = remote_static;
    remote_ephemeral_public = remote_ephemeral;
    message_patterns = message_patterns_of xx;
    current_pattern = n;
  }

  pub has_key-mix_hash :
      (bytes : Bytes) (t : NoiseSymmetricState)
      → has_key (mix_hash crypto bytes t).cipher_state ≡ has_key t.cipher_state
  unfolding mix_hash
  has_key-mix_hash bytes t = refl

  pub plain_sealed :
      (bytes : Bytes) (t : NoiseSymmetricState)
      → has_key t.cipher_state ≡ false
      → encrypt_and_hash crypto bytes t ≡ (mix_hash crypto bytes t, ok bytes)
  unfolding encrypt_and_hash
  plain_sealed bytes t h = rw h refl

  pub plain_opened :
      (bytes : Bytes) (t : NoiseSymmetricState)
      → has_key t.cipher_state ≡ false
      → decrypt_and_hash crypto bytes t ≡ (mix_hash crypto bytes t, ok bytes)
  unfolding decrypt_and_hash
  plain_opened bytes t h = rw h refl

  -- A key is mixed into a state that counts its nonces.
  pub mix_key-IsKeyed :
      (secret : Bytes) (t : NoiseSymmetricState)
      → t.cipher_state.use_extracted_nonce ≡ false
      → IsKeyed (mix_key crypto secret t)
  unfolding mix_key initialize_key
  mix_key-IsKeyed secret t h = record { keyed = (_, refl); counts = h }

  pub mix_hash_counts :
      (bytes : Bytes) (t : NoiseSymmetricState)
      → t.cipher_state.use_extracted_nonce ≡ false
      → (mix_hash crypto bytes t).cipher_state.use_extracted_nonce ≡ false
  unfolding mix_hash
  mix_hash_counts bytes t h = h

  pub has_key_of : (t : NoiseSymmetricState) → IsKeyed t → has_key t.cipher_state ≡ true
  unfolding has_key
  has_key_of t k = rw (k.keyed.1) refl

  -- The state after the first message, which no key protects.
  abbrev pub after_first : Bytes → NoiseSymmetricState → NoiseSymmetricState
  after_first ephemeral t = mix_hash crypto [] (mix_hash crypto (crypto.public_of ephemeral) t)
