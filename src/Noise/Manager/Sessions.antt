-- ===== src/Noise/Manager/Sessions.antt =====
-- The sessions of a `NoiseSessionManager`: their life, their transport and their queues.
use bitchat_tui.Base.{
  ℕ, [], ◌∷◌, ◌++◌, List, Bool, true, false, if◌then◌else◌, ◌==◌, not, Option, none, some, length,
  Result, ok, err,
}
use bitchat_tui.Bytes.{Bytes}
use bitchat_tui.Text.{Text}
use bitchat_tui.Maps.{bytes_eq, lookup, insert, remove, contains_key}
use bitchat_tui.Noise.Cipher.{NoiseError}
use bitchat_tui.Noise.Cipher
use bitchat_tui.Noise.Action.{Action}
use bitchat_tui.Noise.Symmetric.{Crypto}
use bitchat_tui.Noise.Handshake.{NoiseRole, xx, NoiseHandshakeState, new_handshake}
use bitchat_tui.Noise.Session.{
  NoiseSession, NoiseSessionState, handshaking, is_established, is_established_state,
}
use bitchat_tui.Noise.Session
use bitchat_tui.Noise.Manager.{NoiseSessionManager, Manager}

-- A session as the manager makes it, with a handshake or without one.
unfoldable pub fresh_session :
    Text → NoiseRole → NoiseSessionState → Option NoiseHandshakeState → Bytes → NoiseSession
fresh_session peer_id role state handshake_state local_static_key = record {
  peer_id = peer_id;
  role = role;
  state = state;
  handshake_state = handshake_state;
  send_cipher = none;
  receive_cipher = none;
  local_static_key = local_static_key;
  remote_static_public_key = none;
  sent_handshake_messages = [];
  handshake_hash = none;
  pending_messages = [];
}

unfoldable pub put_session : Text → NoiseSession → NoiseSessionManager → NoiseSessionManager
put_session peer_id session m = record m { sessions = insert peer_id session m.sessions }

unfoldable pub get_session : Text → NoiseSessionManager → Option NoiseSession
get_session peer_id m = lookup peer_id m.sessions

-- `get_mut(peer_id).ok_or(SessionNotFound)?`, then the method.
unfoldable pub on_session : {A : Type 0} → Text → Action NoiseSession A → Manager A
on_session peer_id method m = elim (lookup peer_id m.sessions) [
  | none ↦ (m, err NoiseError.session_not_found)
  | some session ↦ (put_session peer_id (method session).0 m, (method session).1)
]

unfoldable pub remove_session : Text → NoiseSessionManager → NoiseSessionManager
remove_session peer_id m = record m {
  sessions = remove peer_id m.sessions;
  peer_fingerprints = remove peer_id m.peer_fingerprints;
  fingerprint_to_peer_id = elim (lookup peer_id m.peer_fingerprints) [
    | some fingerprint ↦ remove fingerprint m.fingerprint_to_peer_id
    | none ↦ m.fingerprint_to_peer_id
  ];
}

unfoldable pub migrate_fingerprints : Text → Text → NoiseSessionManager → NoiseSessionManager
migrate_fingerprints old_id new_id m = elim (lookup old_id m.peer_fingerprints) [
  | none ↦ m
  | some fingerprint ↦ record m {
    peer_fingerprints = insert new_id fingerprint (remove old_id m.peer_fingerprints);
    fingerprint_to_peer_id = insert fingerprint new_id m.fingerprint_to_peer_id;
  }
]

unfoldable pub migrate_session : Text → Text → NoiseSessionManager → NoiseSessionManager
migrate_session old_id new_id m = elim (lookup old_id m.sessions) [
  | none ↦ migrate_fingerprints old_id new_id m
  | some session ↦
      migrate_fingerprints old_id new_id
        (record m { sessions = insert new_id session (remove old_id m.sessions) })
]

-- `values().filter(is_established)`; the source gives them in no order.
unfoldable pub get_established_sessions : List (Text × NoiseSession) → List NoiseSession
get_established_sessions [] = []
get_established_sessions ((peer_id, session) ∷ sessions) =
    let rest = get_established_sessions sessions in
    if is_established session then session ∷ rest else rest

unfoldable pub has_established_session : Text → NoiseSessionManager → Bool
has_established_session peer_id m = elim (lookup peer_id m.sessions) [
  | some session ↦ is_established_state session.state
  | none ↦ false
]

unfoldable pub has_session : Text → NoiseSessionManager → Bool
has_session peer_id m = contains_key peer_id m.sessions

unfoldable pub is_session_ready : Text → NoiseSessionManager → Bool
is_session_ready peer_id m = elim (lookup peer_id m.sessions) [
  | some session ↦ is_established session
  | none ↦ false
]

unfoldable pub store_pending_message : ℕ → Text → Text → Manager (Unit {0})
store_pending_message now peer_id message = on_session peer_id (λ s. (
  record s {
    pending_messages =
        s.pending_messages ++ (record { content = message; timestamp = now; retry_count = 0 } ∷ []);
  },
  ok tt,
))

unfoldable pub queue_message : ℕ → Text → Text → NoiseSessionManager → NoiseSessionManager × Bool
queue_message now peer_id content m = elim (lookup peer_id m.sessions) [
  | some session ↦ (put_session peer_id (Session.queue_message now content session) m, true)
  | none ↦ (m, false)
]

unfoldable pub get_pending_messages :
    ℕ → Text → NoiseSessionManager → NoiseSessionManager × List Text
get_pending_messages now peer_id m = elim (lookup peer_id m.sessions) [
  | some session ↦
      let (session', messages) = Session.get_pending_messages now session in
      (put_session peer_id session' m, messages)
  | none ↦ (m, [])
]

unfoldable pub get_remote_static_key : Text → NoiseSessionManager → Option Bytes
get_remote_static_key peer_id m = elim (get_session peer_id m) [
  | some session ↦ session.remote_static_public_key
  | none ↦ none
]

unfoldable pub get_handshake_hash : Text → NoiseSessionManager → Option Bytes
get_handshake_hash peer_id m = elim (get_session peer_id m) [
  | some session ↦ session.handshake_hash
  | none ↦ none
]

-- The key's length is tested; nothing is stored.
unfoldable pub store_peer_static_key :
    Text → Bytes → NoiseSessionManager → Result NoiseError (Unit {0})
store_peer_static_key peer_id static_key_bytes m =
    if not (length static_key_bytes == 32) then err NoiseError.invalid_public_key else ok tt

module _ (crypto : Crypto) where
  -- A handshake is made anew for an existing session, whose state and role stay.
  unfoldable pub create_session : Text → NoiseRole → Manager NoiseSession
  create_session peer_id role m =
      let handshake_state = new_handshake crypto role xx (some m.local_static_key) none in
      elim (lookup peer_id m.sessions) [
        | some existing_session ↦
            if is_established_state existing_session.state
            then (m, err NoiseError.already_established)
            else (let session = record existing_session {
              handshake_state = some handshake_state;
            } in
                (put_session peer_id session m, ok session))
        | none ↦
            let session =
              fresh_session peer_id role handshaking (some handshake_state) m.local_static_key in
            (put_session peer_id session m, ok session)
      ]

  unfoldable pub encrypt : Bytes → Text → Manager Bytes
  encrypt plaintext peer_id = on_session peer_id (Session.encrypt crypto plaintext)

  unfoldable pub decrypt : Bytes → Text → Manager Bytes
  decrypt ciphertext peer_id = on_session peer_id (Session.decrypt crypto ciphertext)

  -- The same on the cipher itself, with a test of its own.
  unfoldable pub encrypt_message : Text → Bytes → Manager Bytes
  encrypt_message peer_id message m = elim (lookup peer_id m.sessions) [
    | none ↦ (m, err NoiseError.session_not_found)
    | some session ↦
        if is_established session
        then elim session.send_cipher [
          | some send_cipher ↦
              let (cipher', result) = Cipher.encrypt crypto.aead message [] send_cipher in
              (put_session peer_id (record session { send_cipher = some cipher' }) m, result)
          | none ↦ (m, err NoiseError.not_established)
        ]
        else (m, err NoiseError.not_established)
  ]

  unfoldable pub decrypt_message : Text → Bytes → Manager Bytes
  decrypt_message peer_id encrypted_message m = elim (lookup peer_id m.sessions) [
    | none ↦ (m, err NoiseError.session_not_found)
    | some session ↦
        if is_established session
        then elim session.receive_cipher [
          | some recv_cipher ↦
              let (cipher', result) = Cipher.decrypt crypto.aead encrypted_message [] recv_cipher in
              (put_session peer_id (record session { receive_cipher = some cipher' }) m, result)
          | none ↦ (m, err NoiseError.not_established)
        ]
        else (m, err NoiseError.not_established)
  ]
