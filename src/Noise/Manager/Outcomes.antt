-- ===== src/Noise/Manager/Outcomes.antt =====
-- What the methods of a reachable manager answer.
use bitchat_tui.Base.{
  ◌≡◌, ◌⊎◌, arith, [], true, false, some, err, Option-cases, Bool-cases, inl, inr,
}
use bitchat_tui.Bytes.{Bytes}
use bitchat_tui.Text.{Text}
use bitchat_tui.Maps.{bytes_eq, lookup, contains_key}
use bitchat_tui.Maps.Entries.{All-lookup}
use bitchat_tui.Noise.Cipher.{NoiseError, NoiseCipherState}
use bitchat_tui.Noise.Cipher
use bitchat_tui.Noise.Symmetric.{Crypto}
use bitchat_tui.Noise.Session.{NoiseSession, is_established, is_established_state}
use bitchat_tui.Noise.Session.Invariant.{is_consistent}
use bitchat_tui.Noise.Manager.{NoiseSessionManager}
use bitchat_tui.Noise.Manager.Invariant.{Reachable, Reachable-IsSound}
use bitchat_tui.Noise.Manager.Sessions.{
  put_session, has_session, has_established_session, encrypt_message,
}

-- An established session that is consistent has its send cipher.
send_cipher_of :
    (s : NoiseSession)
    → is_consistent s ≡ true
    → is_established_state s.state ≡ true
    → (c : NoiseCipherState) × (s.send_cipher ≡ some c)
unfolding is_consistent
send_cipher_of s h done = elim (Option-cases s.send_cipher) [
  | inl found ↦ found
  | inr e ↦ absurd (ground (arith, h, done, e))
]

module _ (crypto : Crypto) where
  -- In a reachable manager `encrypt_message` has three outcomes: without a session for the peer and
  -- without an established one it is refused, each with its own error and no change; with an
  -- established session the answer is the send cipher's, which alone changes.
  pub encrypt_message-outcomes :
      {m : NoiseSessionManager}
      → (peer : Text) (text : Bytes) → Reachable crypto m
      → ((has_session peer m ≡ false)
          × (encrypt_message crypto peer text m ≡ (m, err NoiseError.session_not_found)))
        ⊎ (((has_session peer m ≡ true)
              × (has_established_session peer m ≡ false)
              × (encrypt_message crypto peer text m ≡ (m, err NoiseError.not_established)))
            ⊎ ((has_established_session peer m ≡ true)
                × ((s : NoiseSession) × (c : NoiseCipherState) × (lookup peer m.sessions ≡ some s)
                    × (s.send_cipher ≡ some c)
                    × (let (c', answer) = Cipher.encrypt crypto.aead text [] c in
                        encrypt_message crypto peer text m
                        ≡ (put_session peer (record s { send_cipher = some c' }) m, answer)))))
  unfolding encrypt_message has_session has_established_session contains_key is_established
  encrypt_message-outcomes {m = m} peer text reached =
      elim (Option-cases (lookup peer m.sessions)) [
        | inr e ↦ inl (ground arith, ground arith)
        | inl (s, e) ↦ elim (Bool-cases (is_established_state s.state)) [
          | inr going ↦ inr (inl (ground arith, ground arith, ground arith))
          | inl done ↦
              let h =
                All-lookup _ peer s m.sessions (Reachable-IsSound crypto reached).consistent e in
              let (c, f) = send_cipher_of s h done in
              inr (inr (ground arith, (s, c, e, f, ground arith)))
        ]
      ]
