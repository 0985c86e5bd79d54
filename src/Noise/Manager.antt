-- ===== src/Noise/Manager.antt =====
-- `NoiseSessionManager` of src/noise_session.rs: its state, the fingerprints and the encryption
-- status. The locks are left out: every method holds them from its first look at a map to its last
-- change. A callback that is set is recorded in `calls` when it is called. Log lines are left out,
-- but for the one that can panic.
pub mod Sessions
pub mod Handshakes
pub mod Sound
pub mod Invariant
pub mod Transport
pub mod Outcomes
pub mod Fingerprints
pub mod Paired
pub mod Repeat
use bitchat_tui.Base.{
  ℕ, [], ◌∷◌, ◌++◌, List, Bool, true, false, if◌then◌else◌, leb, ◌||◌, not, Option, none, some,
  length, drop, ok, err, panic,
}
use bitchat_tui.Bytes.{Bytes}
use bitchat_tui.Text.{Text}
use bitchat_tui.Hex.{hex_encode, is_continuation}
use bitchat_tui.Maps.{bytes_eq, lookup, insert, remove, contains_key}
use bitchat_tui.Noise.Cipher.{NoiseError}
use bitchat_tui.Noise.Action.{Action}
use bitchat_tui.Noise.Symmetric.{Crypto}
use bitchat_tui.Noise.Session.{NoiseSession, uninitialized, handshaking, established, failed}

-- `EncryptionStatus` of src/data_structures.rs
pub data EncryptionStatus : Type 0 where
  failed_status no_handshake noise_handshaking noise_secured noise_verified : EncryptionStatus

-- A call of a callback.
pub data Call : Type 0 where
  session_established : Text → Bytes → Call
  peer_authenticated : Text → Text → Call
  handshake_required : Text → Call

-- The maps; `on_…` says whether the callback is set.
pub record NoiseSessionManager : Type 0 where
  pub sessions : List (Text × NoiseSession)
  pub local_static_key : Bytes
  pub peer_fingerprints : List (Text × Text)
  pub fingerprint_to_peer_id : List (Text × Text)
  pub verified_fingerprints : List (Text × Unit {0})
  pub peer_encryption_status : List (Text × EncryptionStatus)
  pub on_session_established : Bool
  pub on_peer_authenticated : Bool
  pub on_handshake_required : Bool
  pub calls : List Call

unfoldable pub new_manager : Bytes → NoiseSessionManager
new_manager local_static_key = record {
  sessions = [];
  local_static_key = local_static_key;
  peer_fingerprints = [];
  fingerprint_to_peer_id = [];
  verified_fingerprints = [];
  peer_encryption_status = [];
  on_session_established = false;
  on_peer_authenticated = false;
  on_handshake_required = false;
  calls = [];
}

unfoldable pub set_on_session_established : NoiseSessionManager → NoiseSessionManager
set_on_session_established m = record m { on_session_established = true }

unfoldable pub set_on_peer_authenticated : NoiseSessionManager → NoiseSessionManager
set_on_peer_authenticated m = record m { on_peer_authenticated = true }

unfoldable pub set_on_handshake_required : NoiseSessionManager → NoiseSessionManager
set_on_handshake_required m = record m { on_handshake_required = true }

abbrev pub Manager : Type 0 → Type 0
Manager A = Action NoiseSessionManager A

unfoldable pub get_peer_fingerprint : Text → NoiseSessionManager → Option Text
get_peer_fingerprint peer_id m = lookup peer_id m.peer_fingerprints

unfoldable pub get_peer_id_for_fingerprint : Text → NoiseSessionManager → Option Text
get_peer_id_for_fingerprint fingerprint m = lookup fingerprint m.fingerprint_to_peer_id

-- The log line takes the first 16 bytes of the fingerprint, and panics where there are fewer or a
-- character would be cut; the fingerprint is then already in the set.
unfoldable pub verify_fingerprint : Text → Manager (Unit {0})
verify_fingerprint fingerprint m =
    let m' = record m { verified_fingerprints = insert fingerprint tt m.verified_fingerprints } in
    if not (leb 16 (length fingerprint)) || is_continuation (drop 16 fingerprint)
    then (m', panic)
    else (m', ok tt)

unfoldable pub is_fingerprint_verified : Text → NoiseSessionManager → Bool
is_fingerprint_verified fingerprint m = contains_key fingerprint m.verified_fingerprints

unfoldable pub load_verified_fingerprints :
    List (Text × Unit {0}) → NoiseSessionManager → NoiseSessionManager
load_verified_fingerprints fingerprints m = record m { verified_fingerprints = fingerprints }

unfoldable pub status_of : Text → NoiseSessionManager → EncryptionStatus
status_of peer_id m = elim (lookup peer_id m.sessions) [
  | none ↦ no_handshake
  | some session ↦ elim session.state [
    | established ↦ elim (get_peer_fingerprint peer_id m) [
      | some fingerprint ↦
          if is_fingerprint_verified fingerprint m then noise_verified else noise_secured
      | none ↦ noise_secured
    ]
    | handshaking ↦ noise_handshaking
    | uninitialized ↦ no_handshake
    | failed _ ↦ failed_status
  ]
]

unfoldable pub update_encryption_status : Text → NoiseSessionManager → NoiseSessionManager
update_encryption_status peer_id m = record m {
  peer_encryption_status = insert peer_id (status_of peer_id m) m.peer_encryption_status;
}

unfoldable pub get_encryption_status : Text → NoiseSessionManager → EncryptionStatus
get_encryption_status peer_id m = elim (lookup peer_id m.peer_encryption_status) [
  | some status ↦ status
  | none ↦ no_handshake
]

unfoldable pub clear_encryption_status : Text → NoiseSessionManager → NoiseSessionManager
clear_encryption_status peer_id m = record m {
  peer_encryption_status = remove peer_id m.peer_encryption_status;
}

-- A call of a callback, if it is set.
unfoldable pub notify : Bool → Call → NoiseSessionManager → NoiseSessionManager
notify is_set call m = if is_set then record m { calls = m.calls ++ (call ∷ []) } else m

module _ (crypto : Crypto) where
  -- The digits of the SHA-256 hash.
  unfoldable pub calculate_fingerprint : Bytes → Text
  calculate_fingerprint public_key = hex_encode (crypto.sha256 public_key)

  unfoldable pub get_identity_fingerprint : NoiseSessionManager → Text
  get_identity_fingerprint m = calculate_fingerprint (crypto.public_of m.local_static_key)

  unfoldable pub handle_session_established :
      Text → Bytes → NoiseSessionManager → NoiseSessionManager
  handle_session_established peer_id remote_static_key m =
      let fingerprint = calculate_fingerprint remote_static_key in
      let m' = record m {
        peer_fingerprints = insert peer_id fingerprint m.peer_fingerprints;
        fingerprint_to_peer_id = insert fingerprint peer_id m.fingerprint_to_peer_id;
      } in
      notify m.on_peer_authenticated (peer_authenticated peer_id fingerprint)
        (notify m.on_session_established (session_established peer_id remote_static_key) m')
