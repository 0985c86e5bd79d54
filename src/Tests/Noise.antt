-- ===== src/Tests/Noise.antt =====
-- Noise: replays, and messages that come late.
use bitchat_tui.Base.{◌+◌, ◌≡◌, refl, arith, [], ◌∷◌, List, true, not, ◌&&◌, ltb, some, ok}
use bitchat_tui.Bytes.{Bytes}
use bitchat_tui.Noise.Cipher.{
  NoiseCipherState, new_with_key, is_valid_nonce, mark_nonce_as_seen, contains, encrypt, decrypt,
}
use bitchat_tui.Noise.Cipher.Window.{Tracks, highest_of, elem, is_valid_nonce-Tracks}
use bitchat_tui.Noise.Cipher.Replay.{
  Distinct, Receives, Inverts, decrypt_all, decrypt_all_once, decrypt-encrypt,
}
use bitchat_tui.Tests.Values.{plain_aead, greeting}

abbrev key : Bytes
key = 1 ∷ []

-- Nonces 5, 3, 5 again.
abbrev frames : List (Bytes × Bytes)
frames =
    (0 ∷ 0 ∷ 0 ∷ 5 ∷ greeting, [])
    ∷ (0 ∷ 0 ∷ 0 ∷ 3 ∷ greeting, [])
    ∷ (0 ∷ 0 ∷ 0 ∷ 5 ∷ greeting, [])
    ∷ []

decrypt_all_once_example :
    Distinct (decrypt_all plain_aead frames (new_with_key key true) []).1
    × Tracks
        (decrypt_all plain_aead frames (new_with_key key true) []).0
        (decrypt_all plain_aead frames (new_with_key key true) []).1
decrypt_all_once_example = decrypt_all_once plain_aead frames key

-- A receiver that has accepted the nonces 5 and 3.
abbrev receiver : NoiseCipherState
receiver = record {
  key = some key;
  nonce = 0;
  use_extracted_nonce = true;
  replay_window = 3 ∷ 5 ∷ [];
  highest_received_nonce = 5;
}

receiver-Receives : Receives key (3 ∷ 5 ∷ []) receiver
unfolding contains
receiver-Receives = record {
  keyed = refl;
  transport = refl;
  tracks = record { highest = refl; window = λ n. ground arith };
  distinct = (refl, (refl, tt));
}

is_valid_nonce-Tracks_example :
    is_valid_nonce receiver 4
    ≡ (not (elem 4 (3 ∷ 5 ∷ [])) && ltb (highest_of (3 ∷ 5 ∷ [])) (4 + 1024))
is_valid_nonce-Tracks_example =
    is_valid_nonce-Tracks receiver (3 ∷ 5 ∷ []) 4 receiver-Receives.tracks

abbrev sender : NoiseCipherState
sender = record receiver { nonce = 4; replay_window = []; highest_received_nonce = 0 }

plain-Inverts : Inverts plain_aead key
plain-Inverts = record { correct = λ nonce associated_data plaintext. (plaintext, refl, refl) }

-- Message 4 comes after message 5.
decrypt-encrypt_example :
    (frame : Bytes) × (encrypt plain_aead greeting [] sender
      ≡ (record sender { nonce = 4 + 1 }, ok frame))
    × (decrypt plain_aead frame [] receiver ≡ (mark_nonce_as_seen 4 receiver, ok greeting))
decrypt-encrypt_example =
    decrypt-encrypt plain_aead key (3 ∷ 5 ∷ []) sender receiver greeting [] plain-Inverts refl refl
      (omega arith) receiver-Receives refl (omega arith)
