-- ===== src/Encryption/Exchange.antt =====
-- Two services that exchange their public keys.
use bitchat_tui.Base.{
  ◌+◌, ◌<◌, ◌≡◌, ◌∙◌, refl, ap, arith, ◌++◌, true, some, length, take, length-append,
  take-append_length, drop-append_length, ok, err,
}
use bitchat_tui.Bytes.{Bytes}
use bitchat_tui.Text.{Text}
use bitchat_tui.Maps.{bytes_eq, lookup, insert}
use bitchat_tui.Maps.Laws.{lookup-insert_self}
use bitchat_tui.Encryption.{
  Crates, EncryptionService, decryption_failed, service_of, is_key_data_length,
  get_combined_public_key_data, optional_key, insert_some, store_keys, add_peer_public_key,
  hkdf_salt, encrypt_legacy, decrypt_legacy, encrypt, decrypt, encrypt_with_key, decrypt_with_key,
  sign, verify,
}

-- What the crates promise: Diffie-Hellman agrees, public keys and verifying keys have 32 bytes and
-- signatures 64, a verifying key is read back, a signature verifies, and AES-GCM decrypts what it
-- encrypts under a derived key.
pub record IsTrusty (crates : Crates) : Type 0 where
  pub agrees :
      (a b : Bytes)
      → crates.diffie_hellman a (crates.public_of b) ≡ crates.diffie_hellman b (crates.public_of a)
  pub public_size : (a : Bytes) → length (crates.public_of a) ≡ 32
  pub verifying_size : (a : Bytes) → length (crates.verifying_key_of a) ≡ 32
  pub reads :
      (a : Bytes)
      → crates.verifying_key_from_bytes (crates.verifying_key_of a)
        ≡ some (crates.verifying_key_of a)
  pub signature_size : (a message : Bytes) → length (crates.sign a message) ≡ 64
  pub verifies :
      (a message : Bytes)
      → crates.verify_strict (crates.verifying_key_of a) message (crates.sign a message) ≡ true
  pub derives : (salt secret : Bytes) → (key : Bytes) × (crates.hkdf_expand salt secret ≡ some key)
  pub opens :
      (salt secret key nonce plaintext : Bytes)
      → crates.hkdf_expand salt secret ≡ some key
      → (c : Bytes) × (crates.aes_encrypt key nonce plaintext ≡ some c)
        × (crates.aes_decrypt key nonce c ≡ some plaintext)

module _ (crates : Crates) where
  -- The service's public keys belong to its secrets, as in every service that is made.
  pub record IsOwn (s : EncryptionService) : Type 0 where
    pub own_public : s.public_key ≡ crates.public_of s.private_key
    pub own_verifying : s.verifying_key ≡ crates.verifying_key_of s.signing_key
    pub own_identity : s.identity_public ≡ crates.verifying_key_of s.identity_key

  pub service_of-IsOwn :
      (private signing identity : Bytes) → IsOwn (service_of crates private signing identity)
  unfolding service_of
  service_of-IsOwn private signing identity = record {
    own_public = refl;
    own_verifying = refl;
    own_identity = refl;
  }

  module _ (law : IsTrusty crates) where
    -- The parts of the data that a service sends.
    combined_parts :
        (s : EncryptionService)
        → IsOwn s
        → let sent = get_combined_public_key_data s in
          (length sent ≡ 96)
          × (take 32 sent ≡ crates.public_of s.private_key)
          × (optional_key crates 32 sent ≡ some (crates.verifying_key_of s.signing_key))
    unfolding get_combined_public_key_data optional_key
    combined_parts s own =
        let p = crates.public_of s.private_key in
        let v = crates.verifying_key_of s.signing_key in
        let i = crates.verifying_key_of s.identity_key in
        let size : length (p ++ (v ++ i)) ≡ 96 = omega (
          arith,
          length-append p (v ++ i),
          length-append v i,
          law.public_size s.private_key,
          law.verifying_size s.signing_key,
          law.verifying_size s.identity_key,
        ) in
        rw (own.own_public, own.own_verifying, own.own_identity)
          (
            size,
            take-append_length 32 p (v ++ i) (law.public_size s.private_key),
            ground (
              arith,
              size,
              drop-append_length 32 p (v ++ i) (law.public_size s.private_key),
              take-append_length 32 v i (law.verifying_size s.signing_key),
              law.reads s.signing_key,
            ),
          )

    -- What a service holds after it has the data of another.
    added :
        (a b : EncryptionService) (peer : Text) (key : Bytes)
        → IsOwn b
        → crates.hkdf_expand hkdf_salt
            (crates.diffie_hellman a.private_key (crates.public_of b.private_key))
          ≡ some key
        → (a' : EncryptionService) × (add_peer_public_key crates peer
              (get_combined_public_key_data b)
              a
            ≡ (a', ok tt))
          × (lookup peer a'.shared_secrets ≡ some key)
          × (lookup peer a'.peer_signing_keys ≡ some (crates.verifying_key_of b.signing_key))
          × (a'.signing_key ≡ a.signing_key)
    unfolding add_peer_public_key store_keys insert_some is_key_data_length
    added a b peer key own derived =
        let (size, public, signing) = combined_parts b own in
        let s' = store_keys crates peer (get_combined_public_key_data b) a in
        (
          record s' { shared_secrets = insert peer key s'.shared_secrets },
          ground (arith, size, public, derived),
          lookup-insert_self peer key s'.shared_secrets,
          ground (
            arith,
            signing,
            lookup-insert_self peer (crates.verifying_key_of b.signing_key) a.peer_signing_keys,
          ),
          refl,
        )

    -- Two services that add each other's public keys can talk: both calls succeed, what one
    -- encrypts the other decrypts, and what one signs the other verifies, whatever keys they had
    -- before. The nonce has 12 bytes, and the crates keep their promises.
    pub exchange_round :
        (a b : EncryptionService) (id_a id_b : Text) (nonce plaintext message : Bytes)
        → IsOwn a
        → IsOwn b
        → length nonce ≡ 12
        → (a' : EncryptionService) × (b' : EncryptionService) × (frame : Bytes)
          × (add_peer_public_key crates id_b (get_combined_public_key_data b) a ≡ (a', ok tt))
          × (add_peer_public_key crates id_a (get_combined_public_key_data a) b ≡ (b', ok tt))
          × (encrypt crates nonce plaintext id_b a' ≡ ok frame)
          × (decrypt crates frame id_a b' ≡ ok plaintext)
          × (verify crates (sign crates message a') message id_a b' ≡ ok true)
    unfolding encrypt decrypt encrypt_legacy decrypt_legacy sign verify
    exchange_round a b id_a id_b nonce plaintext message own_a own_b size =
        let secret = crates.diffie_hellman a.private_key (crates.public_of b.private_key) in
        let (key, derived) = law.derives hkdf_salt secret in
        let (c, sealed, opened) = law.opens hkdf_salt secret key nonce plaintext derived in
        let (a', added_a, key_a, _, signer) = added a b id_b key own_b derived in
        let (b', added_b, key_b, signing_b, _) =
          added b a id_a key own_a (
            ap (crates.hkdf_expand hkdf_salt) (law.agrees b.private_key a.private_key) ∙ derived) in
        (
          a',
          b',
          nonce ++ c,
          added_a,
          added_b,
          ground (arith, key_a, sealed),
          ground (
            arith,
            key_b,
            opened,
            length-append nonce c,
            take-append_length 12 nonce c size,
            drop-append_length 12 nonce c size,
          ),
          ground (
            arith,
            signing_b,
            signer,
            law.signature_size a.signing_key message,
            law.verifies a.signing_key message,
          ),
        )

  -- What is encrypted with a channel's key is decrypted with it, if the nonce has 12 bytes and
  -- AES-GCM decrypts what it encrypts under that key; and shorter data than a nonce are refused.
  pub decrypt_with_key-encrypt_with_key :
      (key nonce plaintext c short : Bytes)
      → length nonce ≡ 12
      → crates.aes_encrypt key nonce plaintext ≡ some c
      → crates.aes_decrypt key nonce c ≡ some plaintext
      → length short < 12
      → (frame : Bytes) × (encrypt_with_key crates nonce plaintext key ≡ ok frame)
        × (length frame ≡ 12 + length c)
        × (decrypt_with_key crates frame key ≡ ok plaintext)
        × (decrypt_with_key crates short key ≡ err decryption_failed)
  unfolding encrypt_with_key decrypt_with_key
  decrypt_with_key-encrypt_with_key key nonce plaintext c short size sealed opened few = (
    nonce ++ c,
    ground (arith, sealed),
    omega (arith, length-append nonce c, size),
    ground (
      arith,
      opened,
      length-append nonce c,
      take-append_length 12 nonce c size,
      drop-append_length 12 nonce c size,
    ),
    ground arith,
  )
