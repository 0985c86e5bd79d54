-- ===== src/Noise/Manager/Sound/Handshakes.antt =====
-- The handshake methods keep a manager sound.
use bitchat_tui.Base.{
  ℕ, ◌≡◌, refl, arith, [], Option, Result, ok, err, panic, Bool, true, Option-cases, Bool-cases,
  inl, inr, if◌then◌else◌,
}
use bitchat_tui.Bytes.{Bytes}
use bitchat_tui.Text.{Text}
use bitchat_tui.Maps.{bytes_eq, lookup, insert, remove, contains_key}
use bitchat_tui.Maps.Entries.{All-lookup, All-remove, insert-OneEach, remove-OneEach}
use bitchat_tui.Noise.Cipher.{NoiseError}
use bitchat_tui.Noise.Symmetric.{Crypto}
use bitchat_tui.Noise.Session.{NoiseSession, is_established_state, is_established}
use bitchat_tui.Noise.Session
use bitchat_tui.Noise.Session.Invariant.{is_consistent, process-consistent}
use bitchat_tui.Noise.Manager.{
  NoiseSessionManager, calculate_fingerprint, handshake_required, update_encryption_status, notify,
  handle_session_established,
}
use bitchat_tui.Noise.Manager.Sessions.{put_session, fresh_session}
use bitchat_tui.Noise.Manager.Handshakes.{
  with_initiator_session, initiate_handshake, responder_session, should_create_new,
  after_processing, process_incoming, handle_incoming_handshake, restart_session,
}
use bitchat_tui.Noise.Manager.Sound.{
  IsSound, put-IsSound, same-IsSound, going_consistent, responder_consistent, notify-same,
}

module _ (crypto : Crypto) where
  pub initiator-IsSound :
      (peer : Text) (m : NoiseSessionManager)
      → IsSound m
      → IsSound (with_initiator_session crypto peer m)
  unfolding with_initiator_session is_consistent fresh_session
  initiator-IsSound peer m h = elim (Bool-cases (contains_key peer m.sessions)) [
    | inl there ↦ rw (with_initiator_session, there) h
    | inr new ↦ rw (with_initiator_session, new) (put-IsSound peer _ m h refl)
  ]

  pub established-IsSound :
      (peer : Text) (key : Bytes) (m : NoiseSessionManager)
      → IsSound m
      → IsSound (handle_session_established crypto peer key m)
  unfolding handle_session_established notify
  established-IsSound peer key m h =
      let fingerprint = calculate_fingerprint crypto key in
      let m' = handle_session_established crypto peer key m in
      let same : m'.sessions ≡ m.sessions = ground arith in
      let changed : m'.peer_fingerprints ≡ insert peer fingerprint m.peer_fingerprints =
        ground arith in
      record {
        consistent = rw same h.consistent;
        one_session = rw same h.one_session;
        one_fingerprint =
            rw changed (insert-OneEach peer fingerprint m.peer_fingerprints h.one_fingerprint);
      }

  -- The session of an initiator after its message, or its failure.
  pub written-IsSound :
      (peer : Text) (s : NoiseSession) (is_set : Bool) (written : Result NoiseError Bytes)
      (m : NoiseSessionManager)
      → IsSound m
      → is_consistent s ≡ true
      → IsSound
          (elim written as (λ _. NoiseSessionManager × Result NoiseError Bytes) [
            | err e ↦ (put_session peer s m, err e)
            | panic ↦ (put_session peer s m, panic)
            | ok message ↦ (
              update_encryption_status peer (
                  notify is_set
                    (handshake_required peer)
                    (put_session peer (Session.push_sent message s) m)),
              ok message,
            )
          ]).0
  unfolding update_encryption_status Session.push_sent is_consistent
  written-IsSound peer s is_set (err e) m h hs = put-IsSound peer s m h hs
  written-IsSound peer s is_set panic m h hs = put-IsSound peer s m h hs
  written-IsSound peer s is_set (ok message) m h hs =
      let sent = put_session peer (Session.push_sent message s) m in
      let (same_sessions, same_fingerprints) = notify-same is_set (handshake_required peer) sent in
      same-IsSound sent _ same_sessions same_fingerprints (put-IsSound peer _ m h hs)

  pub initiate-IsSound :
      (ephemeral : Bytes) (peer : Text) (m : NoiseSessionManager)
      → IsSound m
      → IsSound (initiate_handshake crypto ephemeral peer m).0
  unfolding initiate_handshake
  initiate-IsSound ephemeral peer m h =
      let m' = with_initiator_session crypto peer m in
      let h' = initiator-IsSound peer m h in
      elim (Option-cases (lookup peer m'.sessions)) [
        | inr e ↦ rw (initiate_handshake, e) h'
        | inl (s, e) ↦ elim (Option-cases s.handshake_state) [
          | inr absent ↦ rw (initiate_handshake, e, absent) h'
          | inl (begun, present) ↦
              rw (initiate_handshake, e, present)
                (written-IsSound peer _ m'.on_handshake_required _ m' h' (
                  going_consistent s begun _ (All-lookup _ peer s m'.sessions h'.consistent e)
                    present))
        ]
      ]

  pub restart-IsSound :
      (now : ℕ) (peer : Text) (m : NoiseSessionManager)
      → IsSound m
      → IsSound (restart_session now peer m)
  unfolding restart_session is_consistent responder_session fresh_session
  restart-IsSound now peer m h =
      put-IsSound peer _ (record m { sessions = remove peer m.sessions })
        (record {
          consistent = All-remove _ peer m.sessions h.consistent;
          one_session = remove-OneEach peer m.sessions h.one_session;
          one_fingerprint = h.one_fingerprint;
        })
        refl

  pub after-IsSound :
      (peer : Text) (s : NoiseSession) (result : Result NoiseError (Option Bytes))
      (m : NoiseSessionManager)
      → IsSound m
      → IsSound (after_processing crypto peer s result m)
  unfolding after_processing
  after-IsSound peer s (err e) m h = h
  after-IsSound peer s panic m h = h
  after-IsSound peer s (ok response) m h = elim (Bool-cases (is_established s)) [
    | inr going ↦ rw (after_processing, going) h
    | inl done ↦ elim (Option-cases s.remote_static_public_key) [
      | inr unknown ↦ rw (after_processing, done, unknown) h
      | inl (key, known) ↦ rw (after_processing, done, known) (established-IsSound peer key m h)
    ]
  ]

  pub process-IsSound :
      (ephemeral : Bytes) (peer : Text) (message : Bytes) (m : NoiseSessionManager)
      → IsSound m
      → IsSound (process_incoming crypto ephemeral peer message m).0
  unfolding process_incoming
  process-IsSound ephemeral peer message m h =
      let m' =
        if should_create_new (lookup peer m.sessions)
        then put_session peer (responder_session peer [] m) m
        else m in
      let h' : IsSound m' = elim (Bool-cases (should_create_new (lookup peer m.sessions))) [
        | inl new ↦ rw new (put-IsSound peer _ m h (responder_consistent peer m))
        | inr kept ↦ rw kept h
      ] in
      elim (Option-cases (lookup peer m'.sessions)) [
        | inr e ↦ rw (process_incoming, e) h'
        | inl (s, e) ↦
            rw (process_incoming, e)
              (after-IsSound peer _ _ _ (
                put-IsSound peer _ m' h' (
                  process-consistent crypto ephemeral message s
                    (All-lookup _ peer s m'.sessions h'.consistent e))))
      ]

  pub handle-IsSound :
      (ephemeral : Bytes) (peer : Text) (message : Bytes) (m : NoiseSessionManager)
      → IsSound m
      → IsSound (handle_incoming_handshake crypto ephemeral peer message m).0
  unfolding handle_incoming_handshake
  handle-IsSound ephemeral peer message m h = elim (Option-cases (lookup peer m.sessions)) [
    | inr e ↦ rw (handle_incoming_handshake, e) (process-IsSound ephemeral peer message m h)
    | inl (s, e) ↦ elim (Bool-cases (is_established_state s.state)) [
      | inl kept ↦ rw (handle_incoming_handshake, e, kept) h
      | inr going ↦
          rw (handle_incoming_handshake, e, going) (process-IsSound ephemeral peer message m h)
    ]
  ]
