-- ===== src/Noise/Manager/Handshakes.antt =====
-- The handshakes of a `NoiseSessionManager`. The ephemeral secret that a message may draw, and the
-- clock, are arguments.
use bitchat_tui.Base.{
  ℕ, [], List, Bool, true, false, if◌then◌else◌, Option, none, some, Result, ok, err, panic, map,
}
use bitchat_tui.Bytes.{Bytes}
use bitchat_tui.Text.{Text}
use bitchat_tui.Maps.{bytes_eq, lookup, remove, contains_key}
use bitchat_tui.Noise.Cipher.{NoiseError}
use bitchat_tui.Noise.Symmetric.{Crypto}
use bitchat_tui.Noise.Handshake.{initiator, responder, xx, new_handshake, write_message}
use bitchat_tui.Noise.Session.{
  NoiseSession, PendingMessage, uninitialized, handshaking, established, failed, is_established,
  is_established_state, push_sent, process_handshake_message,
}
use bitchat_tui.Noise.Manager.{
  NoiseSessionManager, Manager, handshake_required, notify, update_encryption_status,
  handle_session_established,
}
use bitchat_tui.Noise.Manager.Sessions.{fresh_session, put_session}

unfoldable pub should_create_new : Option NoiseSession → Bool
should_create_new none = true
should_create_new (some session) = elim session.state [
  | failed _ ↦ true
  | uninitialized ↦ false
  | handshaking ↦ false
  | established ↦ false
]

unfoldable pub responder_session : Text → List PendingMessage → NoiseSessionManager → NoiseSession
responder_session peer_id pending m =
    record (fresh_session peer_id responder uninitialized none m.local_static_key) {
      pending_messages = pending;
    }

-- The session starts anew as a responder's, and its queue stays, with the time set to now.
unfoldable pub restamp : ℕ → PendingMessage → PendingMessage
restamp now pm = record { content = pm.content; timestamp = now; retry_count = 0 }

unfoldable pub restart_session : ℕ → Text → NoiseSessionManager → NoiseSessionManager
restart_session now peer_id m =
    let preserved_pending : List PendingMessage = elim (lookup peer_id m.sessions) [
      | some existing ↦ map (restamp now) existing.pending_messages
      | none ↦ []
    ] in
    let m' = record m { sessions = remove peer_id m.sessions } in
    put_session peer_id (responder_session peer_id preserved_pending m') m'

module _ (crypto : Crypto) where
  -- The session of the peer, made as an initiator's if there is none.
  unfoldable pub with_initiator_session : Text → NoiseSessionManager → NoiseSessionManager
  with_initiator_session peer_id m =
      if contains_key peer_id m.sessions
      then m
      else put_session peer_id
          (fresh_session peer_id initiator handshaking
            (some (new_handshake crypto initiator xx (some m.local_static_key) none))
            m.local_static_key)
          m

  unfoldable pub initiate_handshake : Bytes → Text → Manager Bytes
  initiate_handshake ephemeral peer_id m =
      let m' = with_initiator_session peer_id m in
      elim (lookup peer_id m'.sessions) [
        | none ↦ (m', err NoiseError.session_not_found)
        | some session ↦ elim session.handshake_state [
          | none ↦ (m', err NoiseError.invalid_state)
          | some handshake_state ↦
              let (h', written) = write_message crypto ephemeral [] handshake_state in
              let session' = record session { handshake_state = some h' } in
              elim written [
                | err e ↦ (put_session peer_id session' m', err e)
                | panic ↦ (put_session peer_id session' m', panic)
                | ok message ↦ (
                  update_encryption_status peer_id (
                      notify m'.on_handshake_required (handshake_required peer_id)
                        (put_session peer_id (push_sent message session') m')),
                  ok message,
                )
              ]
        ]
      ]

  -- After a message that has established the session, its fingerprint is stored.
  unfoldable pub after_processing :
      Text
      → NoiseSession
      → Result NoiseError (Option Bytes)
      → NoiseSessionManager
      → NoiseSessionManager
  after_processing peer_id session result m = elim result [
    | err e ↦ m
    | panic ↦ m
    | ok response ↦
        if is_established session
        then elim session.remote_static_public_key [
          | some remote_key ↦ handle_session_established crypto peer_id remote_key m
          | none ↦ m
        ]
        else m
  ]

  unfoldable pub process_incoming : Bytes → Text → Bytes → Manager (Option Bytes)
  process_incoming ephemeral peer_id handshake_data m =
      let m' =
        if should_create_new (lookup peer_id m.sessions)
        then put_session peer_id (responder_session peer_id [] m) m
        else m in
      elim (lookup peer_id m'.sessions) [
        | none ↦ (m', panic)
        | some session ↦
            let (session', result) =
              process_handshake_message crypto ephemeral handshake_data session in
            (after_processing peer_id session' result (put_session peer_id session' m'), result)
      ]

  unfoldable pub handle_incoming_handshake : Bytes → Text → Bytes → Manager (Option Bytes)
  handle_incoming_handshake ephemeral peer_id handshake_data m = elim (lookup peer_id m.sessions) [
    | some session ↦
        if is_established_state session.state
        then (m, ok none)
        else process_incoming ephemeral peer_id handshake_data m
    | none ↦ process_incoming ephemeral peer_id handshake_data m
  ]

  unfoldable pub handle_incoming_handshake_init : ℕ → Bytes → Text → Bytes → Manager (Option Bytes)
  handle_incoming_handshake_init now ephemeral peer_id handshake_data m =
      handle_incoming_handshake ephemeral peer_id handshake_data (restart_session now peer_id m)
