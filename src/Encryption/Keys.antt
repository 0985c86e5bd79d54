-- ===== src/Encryption/Keys.antt =====
-- Which key data `add_peer_public_key` of src/encryption.rs accepts, and what it stores of them.
use bitchat_tui.Base.{
  ℕ, ◌≢◌, Option, none, drop, List, ◌==◌, if◌then◌else◌, ◌≡◌, ◌⊎◌, refl, arith, true, some, length,
  take, ok, err, Bool-cases, inl, inr,
}
use bitchat_tui.Bytes.{Bytes}
use bitchat_tui.Text.{Text}
use bitchat_tui.Maps.{bytes_eq, lookup, insert}
use bitchat_tui.Maps.Laws.{lookup-insert_self, lookup-insert_ne}
use bitchat_tui.Encryption.{
  Crates, EncryptionService, invalid_public_key, is_key_data_length, optional_key, insert_some,
  store_keys, add_peer_public_key, hkdf_salt,
}

-- The sizes of key data: one, two or three keys.
abbrev pub IsKeySize : ℕ → Type 0
IsKeySize n = (n ≡ 32) ⊎ (n ≡ 64) ⊎ (n ≡ 96)

module _ (crates : Crates) where
  -- The key that is read from 32 bytes behind `offset`, or else what was known before.
  abbrev pub read_or : ℕ → Bytes → Option Bytes → Option Bytes
  read_or offset bytes old = elim (crates.verifying_key_from_bytes (take 32 (drop offset bytes))) [
    | some key ↦ some key
    | none ↦ old
  ]

  lookup-insert_some :
      (peer : Text) (key : Option Bytes) (keys : List (Text × Bytes))
      → lookup peer (insert_some peer key keys)
        ≡ (elim key [ some k ↦ some k | none ↦ lookup peer keys ])
  unfolding insert_some
  lookup-insert_some peer none keys = refl
  lookup-insert_some peer (some k) keys = lookup-insert_self peer k keys

  lookup-insert_some_ne :
      (peer other : Text) (key : Option Bytes) (keys : List (Text × Bytes))
      → peer ≢ other
      → lookup other (insert_some peer key keys) ≡ lookup other keys
  unfolding insert_some
  lookup-insert_some_ne peer other none keys h = refl
  lookup-insert_some_ne peer other (some k) keys h = lookup-insert_ne peer other k keys h

  signing_stored :
      (peer : Text) (bytes : Bytes) (s : EncryptionService)
      → is_key_data_length (length bytes) ≡ true
      → lookup peer (store_keys crates peer bytes s).peer_signing_keys ≡ (
          if length bytes == 32
          then lookup peer s.peer_signing_keys
          else read_or 32 bytes (lookup peer s.peer_signing_keys))
  unfolding store_keys is_key_data_length optional_key
  signing_stored peer bytes s fits =
      ground
        (arith, fits, lookup-insert_some peer (optional_key crates 32 bytes) s.peer_signing_keys)

  identity_stored :
      (peer : Text) (bytes : Bytes) (s : EncryptionService)
      → is_key_data_length (length bytes) ≡ true
      → lookup peer (store_keys crates peer bytes s).peer_identity_keys ≡ (
          if length bytes == 96
          then read_or 64 bytes (lookup peer s.peer_identity_keys)
          else lookup peer s.peer_identity_keys)
  unfolding store_keys is_key_data_length optional_key
  identity_stored peer bytes s fits =
      ground
        (arith, fits, lookup-insert_some peer (optional_key crates 64 bytes) s.peer_identity_keys)

  -- Key data of other than 32, 64 or 96 bytes are refused and change nothing. Data of one of these
  -- sizes are accepted: the first 32 bytes become the peer's public key and give the shared secret,
  -- the next 32 its signing key if they are there, and the last 32 of 96 its identity key; a key that
  -- is not there, or that the crate refuses, leaves the one known before. Another peer's keys stay.
  -- The HKDF crate derives a key.
  pub add_peer_public_key-outcomes :
      (peer other : Text) (bytes key : Bytes) (s : EncryptionService)
      → peer ≢ other
      → crates.hkdf_expand hkdf_salt (crates.diffie_hellman s.private_key (take 32 bytes))
        ≡ some key
      → (¬ IsKeySize (length bytes)
          × (add_peer_public_key crates peer bytes s ≡ (s, err invalid_public_key)))
        ⊎ (IsKeySize (length bytes)
            × ((s' : EncryptionService) × (add_peer_public_key crates peer bytes s ≡ (s', ok tt))
                × (lookup peer s'.shared_secrets ≡ some key)
                × (lookup peer s'.peer_public_keys ≡ some (take 32 bytes))
                × (lookup peer s'.peer_signing_keys ≡ (
                    if length bytes == 32
                    then lookup peer s.peer_signing_keys
                    else read_or 32 bytes (lookup peer s.peer_signing_keys)))
                × (lookup peer s'.peer_identity_keys ≡ (
                    if length bytes == 96
                    then read_or 64 bytes (lookup peer s.peer_identity_keys)
                    else lookup peer s.peer_identity_keys))
                × (lookup other s'.shared_secrets ≡ lookup other s.shared_secrets)
                × (lookup other s'.peer_public_keys ≡ lookup other s.peer_public_keys)
                × (lookup other s'.peer_signing_keys ≡ lookup other s.peer_signing_keys)
                × (lookup other s'.peer_identity_keys ≡ lookup other s.peer_identity_keys)))
  unfolding add_peer_public_key store_keys is_key_data_length insert_some optional_key
  add_peer_public_key-outcomes peer other bytes key s differs derived =
      elim (Bool-cases (is_key_data_length (length bytes))) [
        | inr refused ↦ inl (λ size. ground (arith, refused, size), ground (arith, refused))
        | inl fits ↦
            let s' = store_keys crates peer bytes s in
            inr (
              ground (arith, fits),
              (
                record s' { shared_secrets = insert peer key s'.shared_secrets },
                ground (arith, fits, derived),
                lookup-insert_self peer key s.shared_secrets,
                lookup-insert_self peer (take 32 bytes) s.peer_public_keys,
                signing_stored peer bytes s fits,
                identity_stored peer bytes s fits,
                lookup-insert_ne peer other key s.shared_secrets differs,
                lookup-insert_ne peer other (take 32 bytes) s.peer_public_keys differs,
                lookup-insert_some_ne peer other (optional_key crates 32 bytes) s.peer_signing_keys
                    differs,
                lookup-insert_some_ne peer other (optional_key crates 64 bytes) s.peer_identity_keys
                    differs,
              ),
            )
      ]
