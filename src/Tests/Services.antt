-- ===== src/Tests/Services.antt =====
-- Two encryption services, with small functions for the crates.
use bitchat_tui.Base.{
  ◌+◌, ◌≡◌, ◌≢◌, ◌⊎◌, ◌++◌, refl, arith, [], ◌∷◌, true, some, length, replicate, get_or, ok, err,
  ◌==◌, ==_refl,
}
use bitchat_tui.Bytes.{Bytes}
use bitchat_tui.Text.{Text}
use bitchat_tui.Maps.{bytes_eq, lookup}
use bitchat_tui.Encryption.{
  Crates, EncryptionService, invalid_public_key, service_of, get_combined_public_key_data,
  add_peer_public_key, encrypt, decrypt, sign, verify,
}
use bitchat_tui.Encryption.Exchange.{IsTrusty, service_of-IsOwn, exchange_round}
use bitchat_tui.Encryption.Keys.{IsKeySize, add_peer_public_key-outcomes}
use bitchat_tui.Tests.Values.{greeting}

-- Keys of 32 bytes that show the secret's first byte; AES leaves the text.
abbrev toy_crates : Crates
toy_crates = record {
  public_of = λ secret. 9 ∷ replicate 31 (get_or secret 0 0);
  diffie_hellman = λ secret public. (get_or secret 0 0 + get_or public 1 0) ∷ [];
  verifying_key_of = λ secret. 8 ∷ replicate 31 (get_or secret 0 0);
  verifying_key_from_bytes = λ bytes. some bytes;
  sign = λ secret message. replicate 64 (get_or secret 0 0);
  verify_strict = λ key message signature. get_or key 1 0 == get_or signature 0 0;
  hkdf_expand = λ salt secret. some secret;
  aes_encrypt = λ key nonce plaintext. some plaintext;
  aes_decrypt = λ key nonce sealed. some sealed;
  sha256 = λ bytes. replicate 32 (length bytes);
  pbkdf2_hmac = λ password salt rounds. replicate 32 (length password);
  hex = record { encode = λ bytes. bytes; decode = λ text. some text };
}

toy-IsTrusty : IsTrusty toy_crates
toy-IsTrusty = record {
  agrees = λ a b. ground arith;
  public_size = λ a. refl;
  verifying_size = λ a. refl;
  reads = λ a. refl;
  signature_size = λ a message. refl;
  verifies = λ a message. ==_refl (get_or a 0 0);
  derives = λ salt secret. (secret, refl);
  opens = λ salt secret key nonce plaintext h. (plaintext, refl, refl);
}

abbrev alice : EncryptionService
alice = service_of toy_crates (1 ∷ []) (2 ∷ []) (3 ∷ [])

abbrev bob : EncryptionService
bob = service_of toy_crates (4 ∷ []) (5 ∷ []) (6 ∷ [])

abbrev id_a : Text
id_a = b'a' ∷ []

abbrev id_b : Text
id_b = b'b' ∷ []

abbrev nonce : Bytes
nonce = replicate 12 7

differ : id_b ≢ id_a
differ e = absurd (ground (arith, e))

exchange_round_example :
    (a' : EncryptionService) × (b' : EncryptionService) × (frame : Bytes) × (add_peer_public_key
        toy_crates id_b
        (get_combined_public_key_data bob)
        alice
      ≡ (a', ok tt))
    × (add_peer_public_key toy_crates id_a (get_combined_public_key_data alice) bob ≡ (b', ok tt))
    × (encrypt toy_crates nonce greeting id_b a' ≡ ok frame)
    × (decrypt toy_crates frame id_a b' ≡ ok greeting)
    × (verify toy_crates (sign toy_crates greeting a') greeting id_a b' ≡ ok true)
exchange_round_example =
    exchange_round toy_crates toy-IsTrusty alice bob id_a id_b nonce greeting greeting
      (service_of-IsOwn toy_crates (1 ∷ []) (2 ∷ []) (3 ∷ []))
      (service_of-IsOwn toy_crates (4 ∷ []) (5 ∷ []) (6 ∷ [])) refl

-- Three keys.
abbrev full_data : Bytes
full_data = replicate 32 9 ++ (replicate 32 8 ++ replicate 32 7)

add_peer_public_key-outcomes_example :
    (¬ IsKeySize 96
      × (add_peer_public_key toy_crates id_b full_data alice ≡ (alice, err invalid_public_key)))
    ⊎ (IsKeySize 96
        × ((s' : EncryptionService) × (add_peer_public_key toy_crates id_b full_data alice
              ≡ (s', ok tt))
            × (lookup id_b s'.shared_secrets ≡ some (10 ∷ []))
            × (lookup id_b s'.peer_public_keys ≡ some (replicate 32 9))
            × (lookup id_b s'.peer_signing_keys ≡ some (replicate 32 8))
            × (lookup id_b s'.peer_identity_keys ≡ some (replicate 32 7))
            × (lookup id_a s'.shared_secrets ≡ lookup id_a alice.shared_secrets)
            × (lookup id_a s'.peer_public_keys ≡ lookup id_a alice.peer_public_keys)
            × (lookup id_a s'.peer_signing_keys ≡ lookup id_a alice.peer_signing_keys)
            × (lookup id_a s'.peer_identity_keys ≡ lookup id_a alice.peer_identity_keys)))
unfolding service_of
add_peer_public_key-outcomes_example =
    add_peer_public_key-outcomes toy_crates id_b id_a full_data (10 ∷ []) alice differ refl
