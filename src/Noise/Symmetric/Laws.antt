-- ===== src/Noise/Symmetric/Laws.antt =====
-- Two parties in the same symmetric state stay in the same state over a sealed message.
use bitchat_tui.Base.{◌+◌, ◌≡◌, ◌^◌, ◌%◌, ◌++◌, arith, false, some, length, ok}
use bitchat_tui.Bytes.{Bytes}
use bitchat_tui.Noise.Cipher.{Aead, encrypt, decrypt, decrypt_with, cipher_nonce}
use bitchat_tui.Noise.Symmetric.{
  Crypto, NoiseSymmetricState, has_key, mix_hash, with_cipher, encrypt_and_hash, decrypt_and_hash,
}

-- What the AEAD crate promises: with every key it encrypts, adds a tag of 16 bytes, and decrypts
-- what it encrypted.
pub record IsSealing (aead : Aead) : Type 0 where
  pub sealed :
      (key nonce associated_data plaintext : Bytes)
      → (c : Bytes) × (aead.encrypt key nonce associated_data plaintext ≡ some c)
        × (aead.decrypt key nonce associated_data c ≡ some plaintext)
        × (length c ≡ length plaintext + 16)

-- A cipher state of the handshake: it has a key, and counts its nonces.
pub record IsKeyed (s : NoiseSymmetricState) : Type 0 where
  pub keyed : (key : Bytes) × (s.cipher_state.key ≡ some key)
  pub counts : s.cipher_state.use_extracted_nonce ≡ false

module _ (crypto : Crypto) (h : IsSealing crypto.aead) where
  pub encrypt-decrypt_and_hash :
      (plaintext : Bytes) (s : NoiseSymmetricState)
      → IsKeyed s
      → (s' : NoiseSymmetricState) × (c : Bytes) × (encrypt_and_hash crypto plaintext s
          ≡ (s', ok c))
        × (decrypt_and_hash crypto c s ≡ (s', ok plaintext))
        × (length c ≡ length plaintext + 16)
        × IsKeyed s'
  unfolding encrypt_and_hash decrypt_and_hash encrypt decrypt decrypt_with has_key mix_hash
      with_cipher
  encrypt-decrypt_and_hash plaintext s k =
      let (key, e) = k.keyed in
      let (c, sealed, opened, size) =
        h.sealed key (cipher_nonce s.cipher_state.nonce) s.hash plaintext in
      let s' = record s {
        cipher_state = record s.cipher_state { nonce = (s.cipher_state.nonce + 1) % 2 ^ 64 };
        hash = crypto.sha256 (s.hash ++ c);
      } in
      (
        s',
        c,
        ground (arith, k.counts),
        ground (arith, k.counts),
        size,
        record { keyed = (key, e); counts = k.counts },
      )
