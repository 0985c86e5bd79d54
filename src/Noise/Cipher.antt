-- ===== src/Noise/Cipher.antt =====
-- `NoiseCipherState` of src/noise_protocol.rs. The ChaCha20-Poly1305 crate is a parameter; keys,
-- nonces and texts are byte strings.
pub mod Window
pub mod Replay
use bitchat_tui.Base.{
  ℕ, ◌+◌, ◌-◌, ◌/◌, ◌%◌, ◌^◌, [], ◌∷◌, ◌++◌, List, Bool, true, false, ◌||◌, if◌then◌else◌, ltb, leb,
  ◌==◌, not, Option, none, some, length, take, drop, replicate, Result, ok, err,
}
use bitchat_tui.Bytes.{Bytes, to_be_bytes, from_be_bytes, split}

pub data NoiseError : Type 0 where
  uninitialized_cipher invalid_ciphertext handshake_complete handshake_not_complete : NoiseError
  missing_local_static_key missing_keys invalid_message authentication_failure : NoiseError
  invalid_public_key replay_detected nonce_exceeded encryption_failed : NoiseError
  decryption_failed invalid_state not_established session_not_found already_established : NoiseError

-- Key, nonce, associated data and text; `none` is the crate's error.
pub record Aead : Type 0 where
  pub encrypt : Bytes → Bytes → Bytes → Bytes → Option Bytes
  pub decrypt : Bytes → Bytes → Bytes → Bytes → Option Bytes

abbrev pub nonce_size_bytes : ℕ
nonce_size_bytes = 4

abbrev pub replay_window_size : ℕ
replay_window_size = 1024

-- The window is a `HashSet<u64>`.
pub record NoiseCipherState : Type 0 where
  pub key : Option Bytes
  pub nonce : ℕ
  pub use_extracted_nonce : Bool
  pub replay_window : List ℕ
  pub highest_received_nonce : ℕ

unfoldable pub new_with_key : Bytes → Bool → NoiseCipherState
new_with_key key use_extracted_nonce = record {
  key = some key;
  nonce = 0;
  use_extracted_nonce = use_extracted_nonce;
  replay_window = [];
  highest_received_nonce = 0;
}

unfoldable pub initialize_key : Bytes → NoiseCipherState → NoiseCipherState
initialize_key key s = record s {
  key = some key;
  nonce = 0;
  replay_window = [];
  highest_received_nonce = 0;
}

unfoldable pub contains : List ℕ → ℕ → Bool
contains [] n = false
contains (m ∷ ms) n = m == n || contains ms n

-- `retain` of the nonces that are less than the window size behind `received`
unfoldable pub retain_recent : ℕ → List ℕ → List ℕ
retain_recent received [] = []
retain_recent received (m ∷ ms) =
    let rest = retain_recent received ms in
    if ltb received (m + replay_window_size) then m ∷ rest else rest

-- `HashSet::insert`
unfoldable pub insert_nonce : ℕ → List ℕ → List ℕ
unfolding contains
insert_nonce n window = if contains window n then window else n ∷ window

unfoldable pub is_valid_nonce : NoiseCipherState → ℕ → Bool
is_valid_nonce s received =
    if leb (received + replay_window_size) s.highest_received_nonce
    then false
    else if ltb s.highest_received_nonce received
    then true
    else not (contains s.replay_window received)

unfoldable pub mark_nonce_as_seen : ℕ → NoiseCipherState → NoiseCipherState
mark_nonce_as_seen received s =
    if ltb s.highest_received_nonce received
    then (let shift = received - s.highest_received_nonce in
        let window =
          if leb replay_window_size shift then [] else retain_recent received s.replay_window in
        record s {
          replay_window = insert_nonce received window;
          highest_received_nonce = received;
        })
    else record s { replay_window = insert_nonce received s.replay_window }

-- The four bytes in front of a transport message, and the rest.
unfoldable pub extract_nonce_from_ciphertext_payload : Bytes → Option (ℕ × Bytes)
extract_nonce_from_ciphertext_payload combined = elim (split nonce_size_bytes combined) [
  | none ↦ none
  | some (nonce_data, ciphertext) ↦ some (from_be_bytes nonce_data, ciphertext)
]

-- `nonce as u32`
unfoldable pub nonce_to_bytes : ℕ → Bytes
nonce_to_bytes nonce = to_be_bytes 4 (nonce % 2 ^ 32)

-- The bytes of a u64, the lowest first.
unfoldable pub to_le_bytes : ℕ → ℕ → Bytes
to_le_bytes ℕ.zero value = []
to_le_bytes (ℕ.suc width) value = value % 256 ∷ to_le_bytes width (value / 256)

-- Twelve bytes, the counter in bytes 4 to 12.
unfoldable pub cipher_nonce : ℕ → Bytes
cipher_nonce nonce = replicate 4 0 ++ to_le_bytes 8 nonce

module _ (aead : Aead) where
  unfoldable pub encrypt :
      Bytes → Bytes → NoiseCipherState → NoiseCipherState × Result NoiseError Bytes
  encrypt plaintext associated_data s = elim s.key [
    | none ↦ (s, err NoiseError.uninitialized_cipher)
    | some key ↦ elim (aead.encrypt key (cipher_nonce s.nonce) associated_data plaintext) [
      | none ↦ (s, err NoiseError.encryption_failed)
      | some ciphertext ↦ (
        record s { nonce = (s.nonce + 1) % 2 ^ 64 },
        ok (if s.use_extracted_nonce then nonce_to_bytes s.nonce ++ ciphertext else ciphertext),
      )
    ]
  ]

  -- Behind the replay check: the crate decrypts, and only a success changes the state.
  unfoldable pub decrypt_with :
      Bytes → ℕ → Bytes → Bytes → NoiseCipherState → NoiseCipherState × Result NoiseError Bytes
  decrypt_with key nonce encrypted_payload associated_data s =
      elim (aead.decrypt key (cipher_nonce nonce) associated_data encrypted_payload) [
        | none ↦ (s, err NoiseError.decryption_failed)
        | some plaintext ↦ (
          if s.use_extracted_nonce
              then mark_nonce_as_seen nonce s
              else record s { nonce = (s.nonce + 1) % 2 ^ 64 },
          ok plaintext,
        )
      ]

  unfoldable pub decrypt :
      Bytes → Bytes → NoiseCipherState → NoiseCipherState × Result NoiseError Bytes
  decrypt ciphertext associated_data s = elim s.key [
    | none ↦ (s, err NoiseError.uninitialized_cipher)
    | some key ↦
        if s.use_extracted_nonce
        then elim (extract_nonce_from_ciphertext_payload ciphertext) [
          | none ↦ (s, err NoiseError.invalid_ciphertext)
          | some (n, payload) ↦
              if not (is_valid_nonce s n)
              then (s, err NoiseError.replay_detected)
              else decrypt_with key n payload associated_data s
        ]
        else decrypt_with key s.nonce ciphertext associated_data s
  ]
