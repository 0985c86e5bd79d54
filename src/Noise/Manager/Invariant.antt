-- ===== src/Noise/Manager/Invariant.antt =====
-- What holds of every manager that its methods can reach.
use bitchat_tui.Base.{ℕ, refl, arith, List}
use bitchat_tui.Bytes.{Bytes}
use bitchat_tui.Text.{Text}
use bitchat_tui.Maps.{bytes_eq}
use bitchat_tui.Noise.Symmetric.{Crypto}
use bitchat_tui.Noise.Handshake.{NoiseRole}
use bitchat_tui.Noise.Session.Invariant.{encrypt-consistent, decrypt-consistent}
use bitchat_tui.Noise.Manager.{
  NoiseSessionManager, new_manager, verify_fingerprint, load_verified_fingerprints,
  update_encryption_status, clear_encryption_status, set_on_session_established,
  set_on_peer_authenticated, set_on_handshake_required,
}
use bitchat_tui.Noise.Manager.Sessions.{
  remove_session, migrate_session, store_pending_message, queue_message, get_pending_messages,
  create_session, encrypt, decrypt, encrypt_message, decrypt_message,
}
use bitchat_tui.Noise.Manager.Handshakes.{
  initiate_handshake, handle_incoming_handshake, restart_session, handle_incoming_handshake_init,
}
use bitchat_tui.Noise.Manager.Transport.{encrypt_message-encrypt, decrypt_message-decrypt}
use bitchat_tui.Noise.Manager.Sound.{
  IsSound, same-IsSound, on_session-IsSound, remove-IsSound, migrate-IsSound, queue-IsSound,
  take-IsSound, store-IsSound, create-IsSound,
}
use bitchat_tui.Noise.Manager.Sound.Handshakes.{initiate-IsSound, restart-IsSound, handle-IsSound}

module _ (crypto : Crypto) where
  -- One call of a method that changes the manager. A clock, a message and an ephemeral secret may be
  -- any.
  pub data Step : NoiseSessionManager → NoiseSessionManager → Type 0 where
    verifying :
        {m : NoiseSessionManager}
        → (fingerprint : Text) → Step m (verify_fingerprint fingerprint m).0
    loading :
        {m : NoiseSessionManager}
        → (fingerprints : List (Text × Unit {0}))
        → Step m (load_verified_fingerprints fingerprints m)
    updating : {m : NoiseSessionManager} → (peer : Text) → Step m (update_encryption_status peer m)
    clearing : {m : NoiseSessionManager} → (peer : Text) → Step m (clear_encryption_status peer m)
    setting_established : {m : NoiseSessionManager} → Step m (set_on_session_established m)
    setting_authenticated : {m : NoiseSessionManager} → Step m (set_on_peer_authenticated m)
    setting_required : {m : NoiseSessionManager} → Step m (set_on_handshake_required m)
    creating :
        {m : NoiseSessionManager}
        → (peer : Text) (role : NoiseRole) → Step m (create_session crypto peer role m).0
    removing : {m : NoiseSessionManager} → (peer : Text) → Step m (remove_session peer m)
    migrating :
        {m : NoiseSessionManager}
        → (old_id new_id : Text) → Step m (migrate_session old_id new_id m)
    storing :
        {m : NoiseSessionManager}
        → (now : ℕ) (peer text : Text) → Step m (store_pending_message now peer text m).0
    queueing :
        {m : NoiseSessionManager}
        → (now : ℕ) (peer text : Text) → Step m (queue_message now peer text m).0
    taking :
        {m : NoiseSessionManager}
        → (now : ℕ) (peer : Text) → Step m (get_pending_messages now peer m).0
    encrypting :
        {m : NoiseSessionManager}
        → (peer : Text) (text : Bytes) → Step m (encrypt crypto text peer m).0
    decrypting :
        {m : NoiseSessionManager}
        → (peer : Text) (frame : Bytes) → Step m (decrypt crypto frame peer m).0
    encrypting_message :
        {m : NoiseSessionManager}
        → (peer : Text) (text : Bytes) → Step m (encrypt_message crypto peer text m).0
    decrypting_message :
        {m : NoiseSessionManager}
        → (peer : Text) (frame : Bytes) → Step m (decrypt_message crypto peer frame m).0
    initiating :
        {m : NoiseSessionManager}
        → (ephemeral : Bytes) (peer : Text) → Step m (initiate_handshake crypto ephemeral peer m).0
    handling :
        {m : NoiseSessionManager}
        → (ephemeral : Bytes) (peer : Text) (data' : Bytes)
        → Step m (handle_incoming_handshake crypto ephemeral peer data' m).0
    handling_init :
        {m : NoiseSessionManager}
        → (now : ℕ) (ephemeral : Bytes) (peer : Text) (data' : Bytes)
        → Step m (handle_incoming_handshake_init crypto now ephemeral peer data' m).0

  pub data Reachable : NoiseSessionManager → Type 0 where
    starting : (local_static_key : Bytes) → Reachable (new_manager local_static_key)
    stepping : {m m' : NoiseSessionManager} → Reachable m → Step m m' → Reachable m'

module _ (crypto : Crypto) where
  Step-IsSound : {m m' : NoiseSessionManager} → Step crypto m m' → IsSound m → IsSound m'
  unfolding verify_fingerprint load_verified_fingerprints update_encryption_status
      clear_encryption_status set_on_session_established set_on_peer_authenticated
      set_on_handshake_required encrypt decrypt handle_incoming_handshake_init
  Step-IsSound (verifying {m = m} fingerprint) h =
      same-IsSound m (verify_fingerprint fingerprint m).0 (ground arith) (ground arith) h
  Step-IsSound (loading {m = m} fingerprints) h = same-IsSound m _ refl refl h
  Step-IsSound (updating {m = m} peer) h = same-IsSound m _ refl refl h
  Step-IsSound (clearing {m = m} peer) h = same-IsSound m _ refl refl h
  Step-IsSound (setting_established {m = m}) h = same-IsSound m _ refl refl h
  Step-IsSound (setting_authenticated {m = m}) h = same-IsSound m _ refl refl h
  Step-IsSound (setting_required {m = m}) h = same-IsSound m _ refl refl h
  Step-IsSound (creating {m = m} peer role) h = create-IsSound crypto peer role m h
  Step-IsSound (removing {m = m} peer) h = remove-IsSound peer m h
  Step-IsSound (migrating {m = m} old_id new_id) h = migrate-IsSound old_id new_id m h
  Step-IsSound (storing {m = m} now peer text) h = store-IsSound now peer text m h
  Step-IsSound (queueing {m = m} now peer text) h = queue-IsSound now peer text m h
  Step-IsSound (taking {m = m} now peer) h = take-IsSound now peer m h
  Step-IsSound (encrypting {m = m} peer text) h =
      on_session-IsSound peer _ m (encrypt-consistent crypto text) h
  Step-IsSound (decrypting {m = m} peer frame) h =
      on_session-IsSound peer _ m (decrypt-consistent crypto frame) h
  Step-IsSound (encrypting_message {m = m} peer text) h =
      rw (encrypt_message-encrypt crypto peer text m)
        (on_session-IsSound peer _ m (encrypt-consistent crypto text) h)
  Step-IsSound (decrypting_message {m = m} peer frame) h =
      rw (decrypt_message-decrypt crypto peer frame m)
        (on_session-IsSound peer _ m (decrypt-consistent crypto frame) h)
  Step-IsSound (initiating {m = m} ephemeral peer) h = initiate-IsSound crypto ephemeral peer m h
  Step-IsSound (handling {m = m} ephemeral peer data') h =
      handle-IsSound crypto ephemeral peer data' m h
  Step-IsSound (handling_init {m = m} now ephemeral peer data') h =
      handle-IsSound crypto ephemeral peer data' (restart_session now peer m)
        (restart-IsSound crypto now peer m h)

  -- In every manager that calls of its methods can reach, whatever the messages and whatever the
  -- crates answer, every session is consistent (established with both ciphers, the hash and no
  -- handshake; handshaking with a handshake and no cipher; or uninitialized without a cipher; never
  -- failed), and no peer has two sessions or two fingerprints.
  pub Reachable-IsSound : {m : NoiseSessionManager} → Reachable crypto m → IsSound m
  unfolding new_manager
  Reachable-IsSound (starting local_static_key) = record {
    consistent = tt;
    one_session = tt;
    one_fingerprint = tt;
  }
  Reachable-IsSound (stepping reached made) = Step-IsSound made (Reachable-IsSound reached)
