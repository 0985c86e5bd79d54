-- ===== src/Noise/Cipher/Replay.antt =====
-- Transport messages through `decrypt`: no replay over a whole run, and the round trip with
-- `encrypt`.
use bitchat_tui.Base.{
  ℕ, ◌+◌, ◌%◌, ◌^◌, ◌<◌, ◌≡◌, ◌⊎◌, refl, arith, [], ◌∷◌, ◌++◌, List, true, false, some, none,
  Bool-cases, inl, inr, ok, err, panic, Option-cases,
}
use bitchat_tui.Bytes.{Bytes, to_be_bytes}
use bitchat_tui.Bytes.Laws.{length-to_be_bytes, from_be_bytes-to_be_bytes, split-append}
use bitchat_tui.Noise.Cipher.{
  NoiseError, NoiseCipherState, Aead, new_with_key, contains, is_valid_nonce, mark_nonce_as_seen,
  extract_nonce_from_ciphertext_payload, nonce_to_bytes, cipher_nonce, encrypt, decrypt_with,
  decrypt,
}
use bitchat_tui.Noise.Cipher.Window.{Tracks, highest_of, elem, mark-Tracks, is_valid_nonce-Tracks}

abbrev pub Distinct : List ℕ → Type 0
Distinct [] = Unit
Distinct (n ∷ history) = (elem n history ≡ false) × Distinct history

-- The receiving cipher of a session with this key, after the nonces of the history.
pub record Receives (key : Bytes) (history : List ℕ) (s : NoiseCipherState) : Type 0 where
  pub keyed : s.key ≡ some key
  pub transport : s.use_extracted_nonce ≡ true
  pub tracks : Tracks s history
  pub distinct : Distinct history

mark_same :
    (s : NoiseCipherState) (n : ℕ)
    → ((mark_nonce_as_seen n s).key ≡ s.key)
      × ((mark_nonce_as_seen n s).use_extracted_nonce ≡ s.use_extracted_nonce)
unfolding mark_nonce_as_seen
mark_same s n = ground arith

pub mark-Receives :
    (key : Bytes) (history : List ℕ) (s : NoiseCipherState) (n : ℕ)
    → Receives key history s
    → is_valid_nonce s n ≡ true
    → Receives key (n ∷ history) (mark_nonce_as_seen n s)
mark-Receives key history s n r valid = record {
  keyed = ground (arith, mark_same s n);
  transport = ground (arith, mark_same s n);
  tracks = mark-Tracks s history n valid r.tracks;
  distinct = (ground (arith, is_valid_nonce-Tracks s history n r.tracks), r.distinct);
}

pub fresh-Receives : (key : Bytes) → Receives key [] (new_with_key key true)
unfolding new_with_key contains
fresh-Receives key = record {
  keyed = refl;
  transport = refl;
  tracks = record { highest = refl; window = λ n. refl };
  distinct = tt;
}

module _ (aead : Aead) where
  -- The nonce of a frame that `decrypt` accepts joins the history.
  unfoldable pub note : Bytes → Bytes → NoiseCipherState → List ℕ → List ℕ
  note frame associated_data s history = elim (decrypt aead frame associated_data s).1 [
    | err e ↦ history
    | panic ↦ history
    | ok plaintext ↦ elim (extract_nonce_from_ciphertext_payload frame) [
      | none ↦ history
      | some (n, payload) ↦ n ∷ history
    ]
  ]

  -- A run: frames with their associated data, each decrypted in the state that the last one left.
  unfoldable pub decrypt_all :
      List (Bytes × Bytes) → NoiseCipherState → List ℕ → NoiseCipherState × List ℕ
  decrypt_all [] s history = (s, history)
  decrypt_all ((frame, associated_data) ∷ frames) s history =
      decrypt_all frames (decrypt aead frame associated_data s).0
        (note frame associated_data s history)

  -- A frame is refused and leaves the state, or its nonce is valid and is marked.
  decrypt_cases :
      (key : Bytes) (history : List ℕ) (s : NoiseCipherState) (frame associated_data : Bytes)
      → Receives key history s
      → (((decrypt aead frame associated_data s).0 ≡ s)
          × (note frame associated_data s history ≡ history))
        ⊎ ((n : ℕ) × (is_valid_nonce s n ≡ true)
            × ((decrypt aead frame associated_data s).0 ≡ mark_nonce_as_seen n s)
            × (note frame associated_data s history ≡ n ∷ history))
  unfolding decrypt decrypt_with note
  decrypt_cases key history s frame associated_data r =
      elim (Option-cases (extract_nonce_from_ciphertext_payload frame)) [
        | inr e ↦ inl (ground (arith, r.keyed, r.transport), ground (arith, r.keyed, r.transport))
        | inl ((n, payload), e) ↦ elim (Bool-cases (is_valid_nonce s n)) [
          | inr refused ↦
              inl (ground (arith, r.keyed, r.transport), ground (arith, r.keyed, r.transport))
          | inl valid ↦
              elim (Option-cases (aead.decrypt key (cipher_nonce n) associated_data payload)) [
                | inr failed ↦
                    inl (ground (arith, r.keyed, r.transport), ground (arith, r.keyed, r.transport))
                | inl (plaintext, opened) ↦ inr (
                  n,
                  valid,
                  ground (arith, r.keyed, r.transport),
                  ground (arith, r.keyed, r.transport),
                )
              ]
        ]
      ]

  decrypt-Receives :
      (key : Bytes) (history : List ℕ) (s : NoiseCipherState) (frame associated_data : Bytes)
      → Receives key history s
      → Receives key (note frame associated_data s history) (decrypt aead frame associated_data s).0
  decrypt-Receives key history s frame associated_data r =
      elim (decrypt_cases key history s frame associated_data r) [
        | inl (same, none_new) ↦ rw (same, none_new) r
        | inr (n, valid, marked, new) ↦ rw (marked, new) (mark-Receives key history s n r valid)
      ]

  decrypt_all-Receives :
      (frames : List (Bytes × Bytes)) (key : Bytes) (history : List ℕ) (s : NoiseCipherState)
      → Receives key history s
      → Receives key (decrypt_all frames s history).1 (decrypt_all frames s history).0
  unfolding decrypt_all
  decrypt_all-Receives [] key history s r = r
  decrypt_all-Receives ((frame, associated_data) ∷ frames) key history s r =
      decrypt_all-Receives frames key (note frame associated_data s history)
        (decrypt aead frame associated_data s).0
        (decrypt-Receives key history s frame associated_data r)

  -- In every run of a fresh receiving cipher, whatever the frames and whatever the AEAD crate
  -- answers, no nonce is accepted twice, and the window stands for the whole history.
  pub decrypt_all_once :
      (frames : List (Bytes × Bytes)) (key : Bytes)
      → let run = decrypt_all frames (new_with_key key true) [] in
        Distinct run.1 × Tracks run.0 run.1
  decrypt_all_once frames key =
      let r = decrypt_all-Receives frames key [] (new_with_key key true) (fresh-Receives key) in
      (r.distinct, r.tracks)

  -- A frame whose nonce was accepted before is refused as a replay, and changes nothing.
  pub decrypt_replay :
      (key : Bytes) (history : List ℕ) (s : NoiseCipherState) (frame associated_data : Bytes)
      (n : ℕ) (payload : Bytes)
      → Receives key history s
      → extract_nonce_from_ciphertext_payload frame ≡ some (n, payload)
      → elem n history ≡ true
      → decrypt aead frame associated_data s ≡ (s, err NoiseError.replay_detected)
  unfolding decrypt
  decrypt_replay key history s frame associated_data n payload r e seen =
      ground (arith, is_valid_nonce-Tracks s history n r.tracks, r.keyed, r.transport)

extract-nonce :
    (n : ℕ) (ciphertext : Bytes)
    → n < 2 ^ 32
    → extract_nonce_from_ciphertext_payload (nonce_to_bytes n ++ ciphertext) ≡ some (n, ciphertext)
unfolding extract_nonce_from_ciphertext_payload nonce_to_bytes
extract-nonce n ciphertext h =
    let small : n % 2 ^ 32 ≡ n = omega arith in
    ground (
      arith,
      split-append 4 (to_be_bytes 4 n) ciphertext (length-to_be_bytes 4 n),
      from_be_bytes-to_be_bytes 4 n h,
    )

-- What the crate promises of one key: it encrypts, and decrypts what it encrypted.
pub record Inverts (aead : Aead) (key : Bytes) : Type 0 where
  pub correct :
      (nonce associated_data plaintext : Bytes)
      → (c : Bytes) × (aead.encrypt key nonce associated_data plaintext ≡ some c)
        × (aead.decrypt key nonce associated_data c ≡ some plaintext)

module _ (aead : Aead) where
  -- A transport message that the peer encrypts with counter `n`, below 2^32, is decrypted to its
  -- text if the counter was not accepted before and is less than 1024 behind the highest one: also
  -- out of order, and also when others were lost. The nonce is then marked, and the sender's
  -- counter has advanced by one.
  pub decrypt-encrypt :
      (key : Bytes) (history : List ℕ) (sender receiver : NoiseCipherState)
      (plaintext associated_data : Bytes)
      → Inverts aead key
      → sender.key ≡ some key
      → sender.use_extracted_nonce ≡ true
      → sender.nonce < 2 ^ 32
      → Receives key history receiver
      → elem sender.nonce history ≡ false
      → highest_of history < sender.nonce + 1024
      → (frame : Bytes) × (encrypt aead plaintext associated_data sender
          ≡ (record sender { nonce = sender.nonce + 1 }, ok frame))
        × (decrypt aead frame associated_data receiver
            ≡ (mark_nonce_as_seen sender.nonce receiver, ok plaintext))
  unfolding encrypt decrypt decrypt_with
  decrypt-encrypt key history sender receiver plaintext associated_data inverts keyed transport
        small r new recent =
      let (c, sealed, opened) =
        inverts.correct (cipher_nonce sender.nonce) associated_data plaintext in
      (
        nonce_to_bytes sender.nonce ++ c,
        ground arith,
        ground (
          arith,
          extract-nonce sender.nonce c small,
          is_valid_nonce-Tracks receiver history sender.nonce r.tracks,
          r.keyed,
          r.transport,
        ),
      )
