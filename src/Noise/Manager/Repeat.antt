-- ===== src/Noise/Manager/Repeat.antt =====
-- A second call of `initiate_handshake` before the answer has come.
use bitchat_tui.Base.{◌≡◌, refl, arith, [], ◌++◌, none, some, ok, err}
use bitchat_tui.Bytes.{Bytes}
use bitchat_tui.Text.{Text}
use bitchat_tui.Maps.{bytes_eq, contains_key}
use bitchat_tui.Maps.Laws.{lookup-insert_self}
use bitchat_tui.Noise.Cipher.{NoiseError}
use bitchat_tui.Noise.Symmetric.{Crypto, NoiseSymmetricState, mix_hash}
use bitchat_tui.Noise.Handshake.{
  initiator, NoiseHandshakeState, write_message, write_tokens, write_token, mix_token, mix_dh,
  message_patterns_of, is_handshake_complete, next_pattern,
}
use bitchat_tui.Noise.Handshake.Party.{party, after_first}
use bitchat_tui.Noise.Session.{NoiseSession, new_session, push_sent}
use bitchat_tui.Noise.Session.Agreement.{start_state, amid, started}
use bitchat_tui.Noise.Manager.{NoiseSessionManager}
use bitchat_tui.Noise.Manager.Sessions.{put_session, get_session}
use bitchat_tui.Noise.Manager.Handshakes.{with_initiator_session, initiate_handshake}
use bitchat_tui.Noise.Manager.Paired.{initiate_new}

module _ (crypto : Crypto) where
  -- An initiator that writes again instead of reading the answer.
  written_again :
      (t : NoiseSymmetricState) (si e1 e2 : Bytes)
      → write_message crypto e2 [] (party crypto initiator t si (some e1) none none 1) ≡ (
        party crypto initiator (mix_hash crypto (crypto.public_of e2) t) si (some e2) none none 1,
        err NoiseError.missing_keys,
      )
  unfolding write_message write_tokens write_token mix_token mix_dh party message_patterns_of
      is_handshake_complete next_pattern
  written_again t si e1 e2 = ground arith

  -- The failure of the message is the failure of the call, and what it changed stays.
  initiate_fails :
      (m : NoiseSessionManager) (peer : Text) (s : NoiseSession) (h h' : NoiseHandshakeState)
      (ephemeral : Bytes) (e : NoiseError)
      → get_session peer m ≡ some s
      → s.handshake_state ≡ some h
      → write_message crypto ephemeral [] h ≡ (h', err e)
      → initiate_handshake crypto ephemeral peer m
        ≡ (put_session peer (record s { handshake_state = some h' }) m, err e)
  unfolding initiate_handshake with_initiator_session contains_key get_session
  initiate_fails m peer s h h' ephemeral e there begun failed = ground arith

  -- For a peer without a session, `initiate_handshake` called twice: the first call succeeds, the
  -- second fails with MissingKeys, and it has put its own ephemeral key in the place of the first
  -- one's, whose public key is on its way to the peer.
  pub initiate_twice :
      (m : NoiseSessionManager) (peer : Text) (e1 e2 : Bytes)
      → get_session peer m ≡ none
      → (m1 : NoiseSessionManager) × (m2 : NoiseSessionManager) × (message : Bytes)
        × (h1 : NoiseHandshakeState) × (h2 : NoiseHandshakeState) × (s1 : NoiseSession)
        × (s2 : NoiseSession) × (initiate_handshake crypto e1 peer m ≡ (m1, ok message))
        × (get_session peer m1 ≡ some s1)
        × (s1.handshake_state ≡ some h1)
        × (h1.local_ephemeral_private ≡ some e1)
        × (initiate_handshake crypto e2 peer m1 ≡ (m2, err NoiseError.missing_keys))
        × (get_session peer m2 ≡ some s2)
        × (s2.handshake_state ≡ some h2)
        × (h2.local_ephemeral_private ≡ some e2)
  unfolding party push_sent get_session put_session
  initiate_twice m peer e1 e2 absent =
      let si = m.local_static_key in
      let t = after_first crypto e1 (start_state crypto) in
      let h1 = party crypto initiator t si (some e1) none none 1 in
      let h2 =
        party crypto initiator (mix_hash crypto (crypto.public_of e2) t) si (some e2) none none 1 in
      let message = (crypto.public_of e1 ++ []) ++ [] in
      let s1 = push_sent message (amid crypto (new_session peer initiator si none) h1) in
      let s2 = record s1 { handshake_state = some h2 } in
      let (m1, first, there) =
        initiate_new crypto m peer s1 e1 message absent (started crypto peer si e1) in
      (
        m1,
        put_session peer s2 m1,
        message,
        h1,
        h2,
        s1,
        s2,
        first,
        there,
        refl,
        refl,
        initiate_fails m1 peer s1 h1 h2 e2 NoiseError.missing_keys there refl
            (written_again t si e1 e2),
        lookup-insert_self peer s2 m1.sessions,
        refl,
        refl,
      )
