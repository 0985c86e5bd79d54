-- ===== src/Noise/Session.antt =====
-- `NoiseSession` of src/noise_session.rs. The clock, in nanoseconds, and the ephemeral secret that a
-- message may draw are arguments.
pub mod Agreement
pub mod Traffic
pub mod Invariant
use bitchat_tui.Base.{
  ℕ, ◌+◌, ◌-◌, ◌*◌, ◌^◌, [], ◌∷◌, ◌++◌, List, Bool, true, false, if◌then◌else◌, leb, not, Option,
  none, some, Result, ok, err, panic,
}
use bitchat_tui.Bytes.{Bytes}
use bitchat_tui.Text.{Text}
use bitchat_tui.Noise.Cipher.{NoiseError, NoiseCipherState}
use bitchat_tui.Noise.Cipher
use bitchat_tui.Noise.Action.{Action, ◌>>=◌, ◌>>◌, pure, gets, modify, raise, raise_if, or_raise}
use bitchat_tui.Noise.Symmetric.{Crypto}
use bitchat_tui.Noise.Handshake.{
  NoiseRole, initiator, responder, xx, NoiseHandshakeState, new_handshake, write_message,
  read_message, is_handshake_complete, get_transport_ciphers,
}

pub data NoiseSessionState : Type 0 where
  uninitialized handshaking established : NoiseSessionState
  failed : Text → NoiseSessionState

pub record PendingMessage : Type 0 where
  pub content : Text
  pub timestamp : ℕ
  pub retry_count : ℕ

-- `PENDING_MESSAGE_MAX_AGE`, 60 seconds
abbrev pub pending_message_max_age : ℕ
pending_message_max_age = 60 * 10 ^ 9

pub record NoiseSession : Type 0 where
  pub peer_id : Text
  pub role : NoiseRole
  pub state : NoiseSessionState
  pub handshake_state : Option NoiseHandshakeState
  pub send_cipher : Option NoiseCipherState
  pub receive_cipher : Option NoiseCipherState
  pub local_static_key : Bytes
  pub remote_static_public_key : Option Bytes
  pub sent_handshake_messages : List Bytes
  pub handshake_hash : Option Bytes
  pub pending_messages : List PendingMessage

abbrev pub is_uninitialized : NoiseSessionState → Bool
is_uninitialized uninitialized = true
is_uninitialized _ = false

abbrev pub is_handshaking : NoiseSessionState → Bool
is_handshaking handshaking = true
is_handshaking _ = false

abbrev pub is_established_state : NoiseSessionState → Bool
is_established_state established = true
is_established_state _ = false

abbrev pub is_initiator : NoiseRole → Bool
is_initiator initiator = true
is_initiator responder = false

unfoldable pub is_established : NoiseSession → Bool
is_established s = is_established_state s.state

unfoldable pub new_session : Text → NoiseRole → Bytes → Option Bytes → NoiseSession
new_session peer_id role local_static_key remote_static_key = record {
  peer_id = peer_id;
  role = role;
  state = uninitialized;
  handshake_state = none;
  send_cipher = none;
  receive_cipher = none;
  local_static_key = local_static_key;
  remote_static_public_key = remote_static_key;
  sent_handshake_messages = [];
  handshake_hash = none;
  pending_messages = [];
}

unfoldable pub queue_message : ℕ → Text → NoiseSession → NoiseSession
queue_message now content s = record s {
  pending_messages =
      s.pending_messages ++ (record { content = content; timestamp = now; retry_count = 0 } ∷ []);
}

-- A message from the future counts as young.
unfoldable pub is_recent : ℕ → PendingMessage → Bool
is_recent now pm =
    if leb pm.timestamp now then leb (now - pm.timestamp) pending_message_max_age else true

unfoldable pub recent_contents : ℕ → List PendingMessage → List Text
recent_contents now [] = []
recent_contents now (pm ∷ pms) =
    let rest = recent_contents now pms in if is_recent now pm then pm.content ∷ rest else rest

unfoldable pub get_pending_messages : ℕ → NoiseSession → NoiseSession × List Text
get_pending_messages now s =
    (record s { pending_messages = [] }, recent_contents now s.pending_messages)

abbrev pub Session : Type 0 → Type 0
Session A = Action NoiseSession A

-- `self.handshake_state.as_mut().ok_or(InvalidState)?`, then the method.
unfoldable pub with_handshake : {A : Type 0} → Action NoiseHandshakeState A → Session A
with_handshake m s = elim s.handshake_state [
  | none ↦ (s, err NoiseError.invalid_state)
  | some h ↦ (record s { handshake_state = some (m h).0 }, (m h).1)
]

unfoldable pub push_sent : Bytes → NoiseSession → NoiseSession
push_sent message s = record s {
  sent_handshake_messages = s.sent_handshake_messages ++ (message ∷ []);
}

module _ (crypto : Crypto) where
  -- XX, with no remote key known.
  unfoldable pub begin_handshake : NoiseSession → NoiseSession
  begin_handshake s = record s {
    handshake_state = some (new_handshake crypto s.role xx (some s.local_static_key) none);
    state = handshaking;
  }

  unfoldable pub start_handshake : Bytes → Session Bytes
  start_handshake ephemeral s =
      if not (is_uninitialized s.state) then (s, err NoiseError.invalid_state) else elim s.role [
        | initiator ↦
            (do
              modify begin_handshake
              message ← with_handshake (write_message crypto ephemeral [])
              modify (push_sent message)
              pure message)
              s
        | responder ↦ (begin_handshake s, ok [])
      ]

  -- The ciphers, the peer's key and the hash of a complete handshake.
  unfoldable pub establish : Session (Unit {0})
  establish s = elim s.handshake_state [
    | none ↦ (s, err NoiseError.invalid_state)
    | some h ↦ elim (get_transport_ciphers crypto h) [
      | ok (send, receive) ↦ (
        record s {
          send_cipher = some send;
          receive_cipher = some receive;
          remote_static_public_key = h.remote_static_public;
          handshake_hash = some h.symmetric_state.hash;
          state = established;
          handshake_state = none;
        },
        ok tt,
      )
      | err refused ↦ (s, err refused)
      | panic ↦ (s, panic)
    ]
  ]

  unfoldable pub handshake_complete_now : NoiseSession → Bool
  handshake_complete_now s = elim s.handshake_state [
    | some h ↦ is_handshake_complete crypto h
    | none ↦ false
  ]

  -- After the message has been read: nothing more to send, or an answer, which may be the last.
  unfoldable pub respond : Bytes → Session (Option Bytes)
  respond ephemeral s =
      if handshake_complete_now s
      then (do establish; pure none) s
      else (do
        response ← with_handshake (write_message crypto ephemeral [])
        modify (push_sent response)
        complete ← gets handshake_complete_now
        (λ s'. if complete then establish s' else (s', ok tt))
        pure (some response))
          s

  unfoldable pub process_handshake_message : Bytes → Bytes → Session (Option Bytes)
  process_handshake_message ephemeral message s =
      let s' =
        if is_uninitialized s.state
        then (if is_initiator s.role then s else begin_handshake s)
        else s in
      if not (is_handshaking s'.state)
      then (s', err NoiseError.invalid_state)
      else (do payload ← with_handshake (read_message crypto message); respond ephemeral) s'

  unfoldable pub encrypt : Bytes → Session Bytes
  encrypt plaintext s =
      if not (is_established_state s.state)
      then (s, err NoiseError.not_established)
      else elim s.send_cipher [
        | none ↦ (s, err NoiseError.not_established)
        | some cipher ↦
            let (cipher', r) = Cipher.encrypt crypto.aead plaintext [] cipher in
            (record s { send_cipher = some cipher' }, r)
      ]

  unfoldable pub decrypt : Bytes → Session Bytes
  decrypt ciphertext s =
      if not (is_established_state s.state)
      then (s, err NoiseError.not_established)
      else elim s.receive_cipher [
        | none ↦ (s, err NoiseError.not_established)
        | some cipher ↦
            let (cipher', r) = Cipher.decrypt crypto.aead ciphertext [] cipher in
            (record s { receive_cipher = some cipher' }, r)
      ]

unfoldable pub reset : NoiseSession → NoiseSession
reset s = record s {
  state = uninitialized;
  handshake_state = none;
  send_cipher = none;
  receive_cipher = none;
  sent_handshake_messages = [];
  handshake_hash = none;
  pending_messages = [];
}
