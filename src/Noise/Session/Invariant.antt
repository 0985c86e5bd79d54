-- ===== src/Noise/Session/Invariant.antt =====
-- What a session holds in each of its states.
use bitchat_tui.Base.{◌≡◌, arith, Bool, true, false, ◌&&◌, not, Option, none, some}
use bitchat_tui.Bytes.{Bytes}
use bitchat_tui.Noise.Symmetric.{Crypto}
use bitchat_tui.Noise.Session.{
  NoiseSession, uninitialized, handshaking, established, failed, with_handshake, push_sent,
  begin_handshake, establish, handshake_complete_now, respond, process_handshake_message, encrypt,
  decrypt,
}

abbrev pub is_some : {A : Type 0} → Option A → Bool
is_some (some _) = true
is_some none = false

-- An established session has both ciphers and the hash and no handshake, a handshaking one has a
-- handshake and no cipher, an uninitialized one has no cipher. No session has failed.
unfoldable pub is_consistent : NoiseSession → Bool
is_consistent s = elim s.state [
  | uninitialized ↦ not (is_some s.send_cipher) && not (is_some s.receive_cipher)
  | handshaking ↦
      is_some s.handshake_state && not (is_some s.send_cipher) && not (is_some s.receive_cipher)
  | established ↦
      is_some s.send_cipher
      && is_some s.receive_cipher
      && is_some s.handshake_hash
      && not (is_some s.handshake_state)
  | failed _ ↦ false
]

module _ (crypto : Crypto) where
  pub process-consistent :
      (ephemeral message : Bytes) (s : NoiseSession)
      → is_consistent s ≡ true
      → is_consistent (process_handshake_message crypto ephemeral message s).0 ≡ true
  unfolding is_consistent process_handshake_message begin_handshake with_handshake push_sent respond
      handshake_complete_now establish
  process-consistent ephemeral message s h = ground arith

  pub encrypt-consistent :
      (text : Bytes) (s : NoiseSession)
      → is_consistent s ≡ true
      → is_consistent (encrypt crypto text s).0 ≡ true
  unfolding is_consistent encrypt
  encrypt-consistent text s h = ground arith

  pub decrypt-consistent :
      (frame : Bytes) (s : NoiseSession)
      → is_consistent s ≡ true
      → is_consistent (decrypt crypto frame s).0 ≡ true
  unfolding is_consistent decrypt
  decrypt-consistent frame s h = ground arith
