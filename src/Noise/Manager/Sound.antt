-- ===== src/Noise/Manager/Sound.antt =====
-- Sound managers, and the methods that keep one sound without a handshake message.
pub mod Handshakes
use bitchat_tui.Base.{
  ℕ, ◌≡◌, refl, arith, [], ◌∷◌, List, Option, Result, ok, err, panic, Bool, true, false, none, some,
  All, Option-cases, Bool-cases, inl, inr, if◌then◌else◌,
}
use bitchat_tui.Bytes.{Bytes}
use bitchat_tui.Text.{Text}
use bitchat_tui.Maps.{bytes_eq, lookup, insert, remove, contains_key}
use bitchat_tui.Maps.Entries.{
  All-lookup, All-insert, All-remove, OneEach, insert-OneEach, remove-OneEach,
}
use bitchat_tui.Noise.Cipher.{NoiseError}
use bitchat_tui.Noise.Action.{Action}
use bitchat_tui.Noise.Symmetric.{Crypto}
use bitchat_tui.Noise.Handshake.{NoiseRole, NoiseHandshakeState, xx, new_handshake, write_message}
use bitchat_tui.Noise.Session.{NoiseSession, is_established_state, is_established}
use bitchat_tui.Noise.Session
use bitchat_tui.Noise.Session.Invariant.{
  is_consistent, process-consistent, encrypt-consistent, decrypt-consistent,
}
use bitchat_tui.Noise.Manager.{
  NoiseSessionManager, Call, calculate_fingerprint, new_manager, verify_fingerprint,
  load_verified_fingerprints, handshake_required, update_encryption_status, clear_encryption_status,
  notify, set_on_session_established, set_on_peer_authenticated, set_on_handshake_required,
  handle_session_established,
}
use bitchat_tui.Noise.Manager.Sessions.{
  put_session, on_session, fresh_session, remove_session, migrate_fingerprints, migrate_session,
  store_pending_message, queue_message, get_pending_messages, create_session, encrypt, decrypt,
  encrypt_message, decrypt_message,
}
use bitchat_tui.Noise.Manager.Handshakes.{
  with_initiator_session, initiate_handshake, responder_session, should_create_new,
  after_processing, process_incoming, handle_incoming_handshake, restart_session,
  handle_incoming_handshake_init,
}
use bitchat_tui.Noise.Manager.Transport.{encrypt_message-encrypt, decrypt_message-decrypt}

-- Every session is consistent, and the two maps that entries are removed from have one entry for a
-- key.
pub record IsSound (m : NoiseSessionManager) : Type 0 where
  pub consistent : All (λ entry. is_consistent entry.1 ≡ true) m.sessions
  pub one_session : OneEach m.sessions
  pub one_fingerprint : OneEach m.peer_fingerprints

pub put-IsSound :
    (peer : Text) (s : NoiseSession) (m : NoiseSessionManager)
    → IsSound m
    → is_consistent s ≡ true
    → IsSound (put_session peer s m)
unfolding put_session
put-IsSound peer s m h hs = record {
  consistent = All-insert _ peer s m.sessions h.consistent hs;
  one_session = insert-OneEach peer s m.sessions h.one_session;
  one_fingerprint = h.one_fingerprint;
}

-- The same sessions and fingerprints.
pub same-IsSound :
    (m m' : NoiseSessionManager)
    → m'.sessions ≡ m.sessions
    → m'.peer_fingerprints ≡ m.peer_fingerprints
    → IsSound m
    → IsSound m'
same-IsSound m m' e f h = record {
  consistent = rw e h.consistent;
  one_session = rw e h.one_session;
  one_fingerprint = rw f h.one_fingerprint;
}

pub on_session-IsSound :
    {A : Type 0}
    → (peer : Text) (method : Action NoiseSession A) (m : NoiseSessionManager)
    → ((s : NoiseSession) → is_consistent s ≡ true → is_consistent (method s).0 ≡ true)
    → IsSound m
    → IsSound (on_session peer method m).0
unfolding on_session
on_session-IsSound peer method m keeps h = elim (Option-cases (lookup peer m.sessions)) [
  | inl (s, e) ↦
      rw (on_session, e)
        (put-IsSound peer (method s).0 m h
          (keeps s (All-lookup _ peer s m.sessions h.consistent e)))
  | inr e ↦ rw (on_session, e) h
]

pub remove-IsSound :
    (peer : Text) (m : NoiseSessionManager) → IsSound m → IsSound (remove_session peer m)
unfolding remove_session
remove-IsSound peer m h = record {
  consistent = All-remove _ peer m.sessions h.consistent;
  one_session = remove-OneEach peer m.sessions h.one_session;
  one_fingerprint = remove-OneEach peer m.peer_fingerprints h.one_fingerprint;
}

pub migrate_fingerprints-IsSound :
    (old_id new_id : Text) (m : NoiseSessionManager)
    → IsSound m
    → IsSound (migrate_fingerprints old_id new_id m)
unfolding migrate_fingerprints
migrate_fingerprints-IsSound old_id new_id m h =
    elim (Option-cases (lookup old_id m.peer_fingerprints)) [
      | inl (fingerprint, e) ↦
          rw (migrate_fingerprints, e)
            (record {
              consistent = h.consistent;
              one_session = h.one_session;
              one_fingerprint =
                  insert-OneEach new_id fingerprint (remove old_id m.peer_fingerprints)
                    (remove-OneEach old_id m.peer_fingerprints h.one_fingerprint);
            })
      | inr e ↦ rw (migrate_fingerprints, e) h
    ]

pub migrate-IsSound :
    (old_id new_id : Text) (m : NoiseSessionManager)
    → IsSound m
    → IsSound (migrate_session old_id new_id m)
unfolding migrate_session
migrate-IsSound old_id new_id m h = elim (Option-cases (lookup old_id m.sessions)) [
  | inl (s, e) ↦
      rw (migrate_session, e)
        (migrate_fingerprints-IsSound old_id new_id _ (record {
          consistent =
              All-insert _ new_id s (remove old_id m.sessions)
                (All-remove _ old_id m.sessions h.consistent)
                (All-lookup _ old_id s m.sessions h.consistent e);
          one_session =
              insert-OneEach new_id s (remove old_id m.sessions)
                (remove-OneEach old_id m.sessions h.one_session);
          one_fingerprint = h.one_fingerprint;
        }))
  | inr e ↦ rw (migrate_session, e) (migrate_fingerprints-IsSound old_id new_id m h)
]

pub queue-IsSound :
    (now : ℕ) (peer text : Text) (m : NoiseSessionManager)
    → IsSound m
    → IsSound (queue_message now peer text m).0
unfolding queue_message is_consistent Session.queue_message
queue-IsSound now peer text m h = elim (Option-cases (lookup peer m.sessions)) [
  | inl (s, e) ↦
      let hs = All-lookup _ peer s m.sessions h.consistent e in
      rw (queue_message, e) (put-IsSound peer _ m h (ground (arith, hs)))
  | inr e ↦ rw (queue_message, e) h
]

pub take-IsSound :
    (now : ℕ) (peer : Text) (m : NoiseSessionManager)
    → IsSound m
    → IsSound (get_pending_messages now peer m).0
unfolding get_pending_messages is_consistent Session.get_pending_messages
take-IsSound now peer m h = elim (Option-cases (lookup peer m.sessions)) [
  | inl (s, e) ↦
      let hs = All-lookup _ peer s m.sessions h.consistent e in
      rw (get_pending_messages, e) (put-IsSound peer _ m h (ground (arith, hs)))
  | inr e ↦ rw (get_pending_messages, e) h
]

pub store-IsSound :
    (now : ℕ) (peer text : Text) (m : NoiseSessionManager)
    → IsSound m
    → IsSound (store_pending_message now peer text m).0
unfolding store_pending_message is_consistent
store-IsSound now peer text m h = on_session-IsSound peer _ m (λ s hs. ground (arith, hs)) h

-- A handshake in a session that is not established.
pub handshake_consistent :
    (s : NoiseSession) (h : NoiseHandshakeState)
    → is_consistent s ≡ true
    → is_established_state s.state ≡ false
    → is_consistent (record s { handshake_state = some h }) ≡ true
unfolding is_consistent
handshake_consistent s h hs open_state = ground arith

pub going_consistent :
    (s : NoiseSession) (begun h : NoiseHandshakeState)
    → is_consistent s ≡ true
    → s.handshake_state ≡ some begun
    → is_consistent (record s { handshake_state = some h }) ≡ true
unfolding is_consistent
going_consistent s begun h hs present = ground arith

pub responder_consistent :
    (peer : Text) (m : NoiseSessionManager) → is_consistent (responder_session peer [] m) ≡ true
unfolding is_consistent responder_session fresh_session
responder_consistent peer m = refl

pub notify-same :
    (is_set : Bool) (call : Call) (m : NoiseSessionManager)
    → ((notify is_set call m).sessions ≡ m.sessions)
      × ((notify is_set call m).peer_fingerprints ≡ m.peer_fingerprints)
unfolding notify
notify-same is_set call m = ground arith

module _ (crypto : Crypto) where
  pub create-IsSound :
      (peer : Text) (role : NoiseRole) (m : NoiseSessionManager)
      → IsSound m
      → IsSound (create_session crypto peer role m).0
  unfolding create_session is_consistent fresh_session
  create-IsSound peer role m h = elim (Option-cases (lookup peer m.sessions)) [
    | inl (s, e) ↦ elim (Bool-cases (is_established_state s.state)) [
      | inl kept ↦ rw (create_session, e, kept) h
      | inr renewed ↦
          let hs = All-lookup _ peer s m.sessions h.consistent e in
          rw (create_session, e, renewed)
            (put-IsSound peer _ m h (
              handshake_consistent s (new_handshake crypto role xx (some m.local_static_key) none)
                hs renewed))
    ]
    | inr e ↦ rw (create_session, e) (put-IsSound peer _ m h refl)
  ]
