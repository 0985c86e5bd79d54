-- ===== src/Noise/Manager/Paired.antt =====
-- Two managers that exchange the three messages of a handshake.
use bitchat_tui.Base.{◌≡◌, ◌∙◌, ap, refl, arith, false, Option, none, some, ok}
use bitchat_tui.Bytes.{Bytes}
use bitchat_tui.Text.{Text}
use bitchat_tui.Maps.{bytes_eq, lookup, contains_key}
use bitchat_tui.Maps.Laws.{lookup-insert_self}
use bitchat_tui.Noise.Symmetric.{Crypto}
use bitchat_tui.Noise.Handshake.{initiator, responder, xx, new_handshake}
use bitchat_tui.Noise.Handshake.Keys.{validate_public_key}
use bitchat_tui.Noise.Handshake.Party.{IsAgreeing}
use bitchat_tui.Noise.Session.{
  NoiseSession, established, handshaking, new_session, is_established, is_established_state,
  start_handshake, begin_handshake, with_handshake, push_sent, process_handshake_message,
}
use bitchat_tui.Noise.Session.Agreement.{ArePaired, handshake-ArePaired}
use bitchat_tui.Noise.Manager.{
  NoiseSessionManager, calculate_fingerprint, get_identity_fingerprint, get_peer_fingerprint,
  handle_session_established, handshake_required, notify, update_encryption_status,
}
use bitchat_tui.Noise.Manager.Sound.{notify-same}
use bitchat_tui.Noise.Manager.Sessions.{put_session, get_session, fresh_session}
use bitchat_tui.Noise.Manager.Handshakes.{
  with_initiator_session, initiate_handshake, should_create_new, responder_session,
  after_processing, process_incoming, handle_incoming_handshake,
}

module _ (crypto : Crypto) where
  -- Only a session that is not established takes a handshake message.
  process_ok-open :
      (s s' : NoiseSession) (ephemeral message : Bytes) (response : Option Bytes)
      → process_handshake_message crypto ephemeral message s ≡ (s', ok response)
      → (is_established_state s.state ≡ false) × (should_create_new (some s) ≡ false)
  unfolding process_handshake_message should_create_new
  process_ok-open s s' ephemeral message response e = (ground arith, ground arith)

  -- The message goes to the session that is there.
  handle_there :
      (m : NoiseSessionManager) (peer : Text) (s s' : NoiseSession) (ephemeral message : Bytes)
      (response : Option Bytes)
      → get_session peer m ≡ some s
      → process_handshake_message crypto ephemeral message s ≡ (s', ok response)
      → handle_incoming_handshake crypto ephemeral peer message m
        ≡ (after_processing crypto peer s' (ok response) (put_session peer s' m), ok response)
  unfolding handle_incoming_handshake process_incoming get_session
  handle_there m peer s s' ephemeral message response there e =
      ground (arith, process_ok-open s s' ephemeral message response e)

  -- Without a session, one is made that waits for a message.
  handle_new :
      (m : NoiseSessionManager) (peer : Text) (s' : NoiseSession) (ephemeral message : Bytes)
      (response : Option Bytes)
      → get_session peer m ≡ none
      → process_handshake_message crypto ephemeral message
          (new_session peer responder m.local_static_key none)
        ≡ (s', ok response)
      → (m' : NoiseSessionManager) × (handle_incoming_handshake crypto ephemeral peer message m
          ≡ (after_processing crypto peer s' (ok response) m', ok response))
        × (get_session peer m' ≡ some s')
        × (m'.local_static_key ≡ m.local_static_key)
  unfolding handle_incoming_handshake process_incoming get_session put_session responder_session
      fresh_session new_session should_create_new
  handle_new m peer s' ephemeral message response absent e =
      let s = new_session peer responder m.local_static_key none in
      let m0 = put_session peer s m in
      (
        put_session peer s' m0,
        ground (arith, lookup-insert_self peer s m.sessions),
        lookup-insert_self peer s' m0.sessions,
        refl,
      )

  -- Without a session, an initiator's is made and writes the first message.
  pub initiate_new :
      (m : NoiseSessionManager) (peer : Text) (s' : NoiseSession) (ephemeral message : Bytes)
      → get_session peer m ≡ none
      → start_handshake crypto ephemeral (new_session peer initiator m.local_static_key none)
        ≡ (s', ok message)
      → (m' : NoiseSessionManager) × (initiate_handshake crypto ephemeral peer m ≡ (m', ok message))
        × (get_session peer m' ≡ some s')
  unfolding initiate_handshake with_initiator_session get_session put_session start_handshake
      new_session fresh_session contains_key begin_handshake with_handshake push_sent
      update_encryption_status
  initiate_new m peer s' ephemeral message absent e =
      let fresh = new_handshake crypto initiator xx (some m.local_static_key) none in
      let s0 = record (new_session peer initiator m.local_static_key none) {
        state = handshaking;
        handshake_state = some fresh;
      } in
      let m0 = put_session peer s0 m in
      let sent = put_session peer s' m0 in
      let (same, _) = notify-same m.on_handshake_required (handshake_required peer) sent in
      (
        update_encryption_status peer
            (notify m.on_handshake_required (handshake_required peer) sent),
        ground (arith, lookup-insert_self peer s0 m.sessions),
        ap (lookup peer) same ∙ lookup-insert_self peer s' m0.sessions,
      )

  -- A session that is established by the message has its fingerprint stored.
  after_established :
      (m : NoiseSessionManager) (peer : Text) (s : NoiseSession) (key : Bytes)
      (response : Option Bytes)
      → s.state ≡ established
      → s.remote_static_public_key ≡ some key
      → let m' = after_processing crypto peer s (ok response) m in
        (get_session peer m' ≡ get_session peer m)
        × (get_peer_fingerprint peer m' ≡ some (calculate_fingerprint crypto key))
  unfolding after_processing is_established handle_session_established notify get_session
      get_peer_fingerprint
  after_established m peer s key response done known =
      let stored = lookup-insert_self peer (calculate_fingerprint crypto key) m.peer_fingerprints in
      (ground arith, ground (arith, stored))

  after_going :
      (m : NoiseSessionManager) (peer : Text) (s : NoiseSession) (response : Option Bytes)
      → is_established_state s.state ≡ false
      → after_processing crypto peer s (ok response) m ≡ m
  unfolding after_processing is_established
  after_going m peer s response going = ground arith

  module _ (law : IsAgreeing crypto) where
    -- Two managers, neither with a session for the other, that pass each other the messages of a
    -- handshake: every call succeeds, their sessions are then paired, and each knows the other by
    -- its identity fingerprint. The crates keep their promises, and both static keys are valid.
    pub managers-ArePaired :
        (a b : NoiseSessionManager) (id_a id_b : Text) (ea eb unused_a unused_b : Bytes)
        → get_session id_b a ≡ none
        → get_session id_a b ≡ none
        → validate_public_key (crypto.public_of a.local_static_key)
          ≡ ok (crypto.public_of a.local_static_key)
        → validate_public_key (crypto.public_of b.local_static_key)
          ≡ ok (crypto.public_of b.local_static_key)
        → (a1 : NoiseSessionManager) × (b1 : NoiseSessionManager) × (a2 : NoiseSessionManager)
          × (b2 : NoiseSessionManager) × (m1 : Bytes) × (m2 : Bytes) × (m3 : Bytes)
          × (initiate_handshake crypto ea id_b a ≡ (a1, ok m1))
          × (handle_incoming_handshake crypto eb id_a m1 b ≡ (b1, ok (some m2)))
          × (handle_incoming_handshake crypto unused_a id_b m2 a1 ≡ (a2, ok (some m3)))
          × (handle_incoming_handshake crypto unused_b id_a m3 b1 ≡ (b2, ok none))
          × (get_peer_fingerprint id_b a2 ≡ some (get_identity_fingerprint crypto b))
          × (get_peer_fingerprint id_a b2 ≡ some (get_identity_fingerprint crypto a))
          × (i : NoiseSession) × (r : NoiseSession) × (get_session id_b a2 ≡ some i)
          × (get_session id_a b2 ≡ some r)
          × ArePaired i r
              (crypto.public_of a.local_static_key)
              (crypto.public_of b.local_static_key)
    unfolding get_identity_fingerprint get_session put_session
    managers-ArePaired a b id_a id_b ea eb unused_a unused_b new_a new_b valid_a valid_b =
        let (i1, r1, i2, r2, m1, m2, m3, start1, process1, process2, process3, paired) =
          handshake-ArePaired crypto law id_a id_b a.local_static_key ea b.local_static_key eb
            unused_a unused_b valid_a valid_b in
        let (a1, initiated, there_a) = initiate_new a id_b i1 ea m1 new_a start1 in
        let (b1, handled1, there_b, kept_b) = handle_new b id_a r1 eb m1 (some m2) new_b process1 in
        let (going, _) = process_ok-open r1 r2 unused_b m3 none process3 in
        let woken =
          handled1 ∙ ap (λ m. (m, ok (some m2))) (after_going b1 id_a r1 (some m2) going) in
        let a2 = put_session id_b i2 a1 in
        let b2 = put_session id_a r2 b1 in
        let (same_a, known_b) =
          after_established a2 id_b i2 (crypto.public_of b.local_static_key) (some m3)
            paired.initiator_established paired.knows_responder in
        let (same_b, known_a) =
          after_established b2 id_a r2 (crypto.public_of a.local_static_key) none
            paired.responder_established paired.knows_initiator in
        (
          a1,
          b1,
          after_processing crypto id_b i2 (ok (some m3)) a2,
          after_processing crypto id_a r2 (ok none) b2,
          m1,
          m2,
          m3,
          initiated,
          woken,
          handle_there a1 id_b i1 i2 unused_a m2 (some m3) there_a process2,
          handle_there b1 id_a r1 r2 unused_b m3 none there_b process3,
          known_b,
          known_a,
          i2,
          r2,
          same_a ∙ lookup-insert_self id_b i2 a1.sessions,
          same_b ∙ lookup-insert_self id_a r2 b1.sessions,
          paired,
        )
