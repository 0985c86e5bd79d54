-- ===== src/Encryption.antt =====
-- `EncryptionService` of src/encryption.rs. The crates for X25519, Ed25519, HKDF, AES-GCM, SHA-256 and
-- PBKDF2 are a parameter; keys, nonces and signatures are byte strings. What is drawn at random is an
-- argument.
pub mod Exchange
pub mod Keys
use bitchat_tui.Base.{
  ℕ, ◌+◌, ◌^◌, [], ◌∷◌, ◌++◌, List, Bool, true, false, if◌then◌else◌, ◌||◌, ltb, leb, ◌==◌, not,
  Option, none, some, length, take, drop, Result, ok, err, panic, ok_or, ◌>>=◌, ◌>>◌, ensure,
}
use bitchat_tui.Bytes.{Bytes}
use bitchat_tui.Text.{Text, HexCrate}
use bitchat_tui.Hex.{hex_encode}
use bitchat_tui.Maps.{bytes_eq, lookup, insert, contains_key}
use bitchat_tui.Noise.Manager.{NoiseSessionManager}

pub data EncryptionError : Type 0 where
  no_shared_secret invalid_public_key encryption_failed decryption_failed : EncryptionError
  signature_verification_failed : EncryptionError

-- What the service calls of the crates. A key of the wrong length is `none` for `aes_encrypt` and
-- `aes_decrypt`, as it is an error for `new_from_slice`.
pub record Crates : Type 0 where
  -- `PublicKey::from` of a secret; secret and public key.
  pub public_of : Bytes → Bytes
  pub diffie_hellman : Bytes → Bytes → Bytes
  -- `SigningKey::verifying_key`, `VerifyingKey::from_bytes`; key, message.
  pub verifying_key_of : Bytes → Bytes
  pub verifying_key_from_bytes : Bytes → Option Bytes
  pub sign : Bytes → Bytes → Bytes
  -- Verifying key, message and signature.
  pub verify_strict : Bytes → Bytes → Bytes → Bool
  -- Salt and key material, to 32 bytes with no info.
  pub hkdf_expand : Bytes → Bytes → Option Bytes
  -- Key, nonce and data.
  pub aes_encrypt : Bytes → Bytes → Bytes → Option Bytes
  pub aes_decrypt : Bytes → Bytes → Bytes → Option Bytes
  pub sha256 : Bytes → Bytes
  -- Password, salt and rounds, to 32 bytes.
  pub pbkdf2_hmac : Bytes → Bytes → ℕ → Bytes
  pub hex : HexCrate

pub record EncryptionService : Type 0 where
  pub private_key : Bytes
  pub public_key : Bytes
  pub signing_key : Bytes
  pub verifying_key : Bytes
  pub identity_key : Bytes
  pub identity_public : Bytes
  pub peer_public_keys : List (Text × Bytes)
  pub peer_signing_keys : List (Text × Bytes)
  pub peer_identity_keys : List (Text × Bytes)
  pub shared_secrets : List (Text × Bytes)
  pub noise_manager : Option NoiseSessionManager

-- `and_then(try_from)`, or else the random key.
unfoldable pub key_or : Bytes → Option Bytes → Bytes
key_or random none = random
key_or random (some bytes) = if length bytes == 32 then bytes else random

unfoldable pub set_noise_manager : NoiseSessionManager → EncryptionService → EncryptionService
set_noise_manager noise_manager s = record s { noise_manager = some noise_manager }

unfoldable pub has_peer_key : Text → EncryptionService → Bool
has_peer_key peer_id s = contains_key peer_id s.shared_secrets

unfoldable pub get_peer_identity_key : Text → EncryptionService → Option Bytes
get_peer_identity_key peer_id s = lookup peer_id s.peer_identity_keys

-- Nothing changes without a key.
unfoldable pub insert_some : Text → Option Bytes → List (Text × Bytes) → List (Text × Bytes)
insert_some peer_id none keys = keys
insert_some peer_id (some key) keys = insert peer_id key keys

-- 32, 64 or 96
unfoldable pub is_key_data_length : ℕ → Bool
is_key_data_length n = n == 32 || n == 64 || n == 96

unfoldable pub get_combined_public_key_data : EncryptionService → Bytes
get_combined_public_key_data s = s.public_key ++ (s.verifying_key ++ s.identity_public)

-- "bitchat-v1"
abbrev pub hkdf_salt : Text
hkdf_salt = b'b' ∷ b'i' ∷ b't' ∷ b'c' ∷ b'h' ∷ b'a' ∷ b't' ∷ b'-' ∷ b'v' ∷ b'1' ∷ []

module _ (crates : Crates) where
  unfoldable pub service_of : Bytes → Bytes → Bytes → EncryptionService
  service_of private_key signing_key identity_key = record {
    private_key = private_key;
    public_key = crates.public_of private_key;
    signing_key = signing_key;
    verifying_key = crates.verifying_key_of signing_key;
    identity_key = identity_key;
    identity_public = crates.verifying_key_of identity_key;
    peer_public_keys = [];
    peer_signing_keys = [];
    peer_identity_keys = [];
    shared_secrets = [];
    noise_manager = none;
  }

  -- With three random keys.
  unfoldable pub new_service : Bytes → Bytes → Bytes → EncryptionService
  new_service random_private random_signing random_identity =
      service_of random_private random_signing random_identity

  unfoldable pub new_with_persistent_keys :
      Bytes → Bytes → Bytes → Option Bytes → Option Bytes → EncryptionService
  new_with_persistent_keys random_private random_signing random_identity noise_static_key
        identity_key =
      service_of (key_or random_private noise_static_key) (key_or random_signing identity_key)
        (key_or random_identity identity_key)

  unfoldable pub derive_peer_id : EncryptionService → Text
  derive_peer_id s = crates.hex.encode (take 8 (crates.sha256 s.public_key))

  unfoldable pub get_peer_fingerprint : Text → EncryptionService → Option Text
  get_peer_fingerprint peer_id s = elim (get_peer_identity_key peer_id s) [
    | none ↦ none
    | some key_bytes ↦ some (hex_encode (take 16 (crates.sha256 key_bytes)))
  ]

  unfoldable pub get_identity_fingerprint : EncryptionService → Text
  get_identity_fingerprint s = hex_encode (crates.sha256 s.public_key)

  -- The 32 bytes behind `offset`, if the data reach that far and are a key.
  unfoldable pub optional_key : ℕ → Bytes → Option Bytes
  optional_key offset bytes =
      if leb (offset + 32) (length bytes)
      then crates.verifying_key_from_bytes (take 32 (drop offset bytes))
      else none

  unfoldable pub store_keys : Text → Bytes → EncryptionService → EncryptionService
  store_keys peer_id public_key_data s = record s {
    peer_public_keys = insert peer_id (take 32 public_key_data) s.peer_public_keys;
    peer_signing_keys = insert_some peer_id (optional_key 32 public_key_data) s.peer_signing_keys;
    peer_identity_keys = insert_some peer_id (optional_key 64 public_key_data) s.peer_identity_keys;
  }

  unfoldable pub add_peer_public_key :
      Text → Bytes → EncryptionService → EncryptionService × Result EncryptionError (Unit {0})
  add_peer_public_key peer_id public_key_data s =
      if not (is_key_data_length (length public_key_data))
      then (s, err invalid_public_key)
      else (let s' = store_keys peer_id public_key_data s in
          let shared_secret = crates.diffie_hellman s.private_key (take 32 public_key_data) in
          elim (crates.hkdf_expand hkdf_salt shared_secret) [
            | none ↦ (s', err encryption_failed)
            | some symmetric_key ↦ (
              record s' { shared_secrets = insert peer_id symmetric_key s'.shared_secrets },
              ok tt,
            )
          ])

  unfoldable pub encrypt_with_key : Bytes → Bytes → Bytes → Result EncryptionError Bytes
  encrypt_with_key nonce plaintext key = do
    ciphertext ← ok_or encryption_failed (crates.aes_encrypt key nonce plaintext)
    ok (nonce ++ ciphertext)

  unfoldable pub decrypt_with_key : Bytes → Bytes → Result EncryptionError Bytes
  decrypt_with_key sealed key = do
    ensure (not (ltb (length sealed) 12)) decryption_failed
    ok_or decryption_failed (crates.aes_decrypt key (take 12 sealed) (drop 12 sealed))

  unfoldable pub encrypt_legacy :
      Bytes → Bytes → Text → EncryptionService → Result EncryptionError Bytes
  encrypt_legacy nonce plaintext peer_id s = do
    symmetric_key ← ok_or no_shared_secret (lookup peer_id s.shared_secrets)
    ciphertext ← ok_or encryption_failed (crates.aes_encrypt symmetric_key nonce plaintext)
    ok (nonce ++ ciphertext)

  unfoldable pub decrypt_legacy : Bytes → Text → EncryptionService → Result EncryptionError Bytes
  decrypt_legacy sealed peer_id s = do
    ensure (not (ltb (length sealed) 12)) decryption_failed
    symmetric_key ← ok_or no_shared_secret (lookup peer_id s.shared_secrets)
    ok_or decryption_failed (crates.aes_decrypt symmetric_key (take 12 sealed) (drop 12 sealed))

  -- With an established Noise session the source only writes a log line, and does the same.
  unfoldable pub encrypt : Bytes → Bytes → Text → EncryptionService → Result EncryptionError Bytes
  encrypt nonce plaintext peer_id s = encrypt_legacy nonce plaintext peer_id s

  unfoldable pub decrypt : Bytes → Text → EncryptionService → Result EncryptionError Bytes
  decrypt sealed peer_id s = decrypt_legacy sealed peer_id s

  unfoldable pub encrypt_for_peer :
      Bytes → Text → Bytes → EncryptionService → Result EncryptionError Bytes
  encrypt_for_peer nonce peer_id plaintext s = encrypt nonce plaintext peer_id s

  unfoldable pub sign : Bytes → EncryptionService → Bytes
  sign message s = crates.sign s.signing_key message

  unfoldable pub verify : Bytes → Bytes → Text → EncryptionService → Result EncryptionError Bool
  verify signature message peer_id s = do
    verifying_key ← ok_or no_shared_secret (lookup peer_id s.peer_signing_keys)
    ensure (length signature == 64) signature_verification_failed
    ok (crates.verify_strict verifying_key message signature)

  unfoldable pub derive_channel_key : Text → Text → Bytes
  derive_channel_key password channel_name = crates.pbkdf2_hmac password channel_name (10 ^ 5)
