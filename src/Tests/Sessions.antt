-- ===== src/Tests/Sessions.antt =====
-- Handshakes, sessions and their manager, with small functions for the crates.
use bitchat_tui.Base.{
  ◌+◌, ◌-◌, ◌%◌, ◌≡◌, ◌≢◌, ◌⊎◌, refl, arith, [], ◌∷◌, ◌++◌, List, true, false, none, some, length,
  take, replicate, get_or, length-append, take-append_length, ok, err,
}
use bitchat_tui.Bytes.{Bytes}
use bitchat_tui.Text.{Text}
use bitchat_tui.Maps.{bytes_eq, bytes_beq, lookup}
use bitchat_tui.Noise.Cipher.{NoiseError, NoiseCipherState, Aead, new_with_key}
use bitchat_tui.Noise.Cipher
use bitchat_tui.Noise.Symmetric.{Crypto}
use bitchat_tui.Noise.Symmetric.Laws.{IsSealing}
use bitchat_tui.Noise.Handshake.{NoiseHandshakeState, initiator, responder}
use bitchat_tui.Noise.Handshake.Keys.{validate_public_key, all_zero, contains_key_data}
use bitchat_tui.Noise.Handshake.Party.{IsAgreeing}
use bitchat_tui.Noise.Session.{NoiseSession, established, new_session}
use bitchat_tui.Noise.Session.Invariant.{is_consistent}
use bitchat_tui.Noise.Session.Agreement.{ArePaired}
use bitchat_tui.Noise.Session.Traffic.{Event, forth, back, exchange}
use bitchat_tui.Noise.Session.Traffic.Exchange.{exchange-ArePaired}
use bitchat_tui.Noise.Manager.{
  NoiseSessionManager, new_manager, get_peer_fingerprint, get_peer_id_for_fingerprint,
  get_identity_fingerprint, get_encryption_status,
}
use bitchat_tui.Noise.Manager.Sessions.{
  get_session, has_session, has_established_session, put_session, migrate_session, encrypt_message,
  decrypt_message, encrypt, decrypt,
}
use bitchat_tui.Noise.Manager.Handshakes.{initiate_handshake, handle_incoming_handshake}
use bitchat_tui.Noise.Manager.Sound.{IsSound}
use bitchat_tui.Noise.Manager.Invariant.{
  Reachable, starting, stepping, initiating, Reachable-IsSound,
}
use bitchat_tui.Noise.Manager.Transport.{transport_same}
use bitchat_tui.Noise.Manager.Outcomes.{encrypt_message-outcomes}
use bitchat_tui.Noise.Manager.Fingerprints.{migrate_session-moves}
use bitchat_tui.Noise.Manager.Repeat.{initiate_twice}
use bitchat_tui.Noise.Manager.Paired.{managers-ArePaired}
use bitchat_tui.Tests.Values.{greeting}

-- A text with sixteen more bytes.
abbrev tag_aead : Aead
tag_aead = record {
  encrypt = λ key nonce associated_data plaintext. some (plaintext ++ replicate 16 5);
  decrypt = λ key nonce associated_data sealed. some (take (length sealed - 16) sealed);
}

-- A public key of 32 bytes that shows the secret's first byte; the shared secret is a sum.
abbrev toy : Crypto
toy = record {
  aead = tag_aead;
  sha256 = λ bytes. replicate 32 (length bytes % 256);
  hmac_sha256 = λ key message. replicate 32 ((length key + length message) % 256);
  public_of = λ secret. 9 ∷ replicate 31 (get_or secret 0 0);
  diffie_hellman = λ secret public. (get_or secret 0 0 + get_or public 1 0) ∷ [];
}

tag-IsSealing : IsSealing tag_aead
tag-IsSealing = record {
  sealed = λ key nonce associated_data plaintext.
      let size : length (plaintext ++ replicate 16 5) ≡ length plaintext + 16 =
        length-append plaintext (replicate 16 5) in
      (
        plaintext ++ replicate 16 5,
        refl,
        ground (arith, size, take-append_length (length plaintext) plaintext (replicate 16 5) refl),
        size,
      );
}

toy-IsAgreeing : IsAgreeing toy
toy-IsAgreeing = record { seals = tag-IsSealing; agrees = λ a b. ground arith; size = λ a. refl }

abbrev alice : Text
alice = b'a' ∷ []

abbrev bob : Text
bob = b'b' ∷ []

abbrev secret_a : Bytes
secret_a = 1 ∷ []

abbrev secret_b : Bytes
secret_b = 2 ∷ []

abbrev draw_a : Bytes
draw_a = 3 ∷ []

abbrev draw_b : Bytes
draw_b = 4 ∷ []

valid_a : validate_public_key (toy.public_of secret_a) ≡ ok (toy.public_of secret_a)
unfolding validate_public_key all_zero contains_key_data bytes_beq
valid_a = refl

valid_b : validate_public_key (toy.public_of secret_b) ≡ ok (toy.public_of secret_b)
unfolding validate_public_key all_zero contains_key_data bytes_beq
valid_b = refl

-- The point 1, which has low order, passes for a key.
low_order_accepted : validate_public_key (1 ∷ replicate 31 0) ≡ ok (1 ∷ replicate 31 0)
unfolding validate_public_key all_zero contains_key_data bytes_beq
low_order_accepted = refl

-- Two sessions in the middle of a talk that has not begun.
abbrev session_a : NoiseSession
session_a = record (new_session bob initiator secret_a (some (toy.public_of secret_b))) {
  state = established;
  send_cipher = some (new_with_key (7 ∷ []) true);
  receive_cipher = some (new_with_key (8 ∷ []) true);
  handshake_hash = some [];
}

abbrev session_b : NoiseSession
session_b = record (new_session alice responder secret_b (some (toy.public_of secret_a))) {
  state = established;
  send_cipher = some (new_with_key (8 ∷ []) true);
  receive_cipher = some (new_with_key (7 ∷ []) true);
  handshake_hash = some [];
}

sessions-ArePaired : ArePaired session_a session_b (toy.public_of secret_a) (toy.public_of secret_b)
unfolding new_session
sessions-ArePaired = record {
  initiator_established = refl;
  responder_established = refl;
  forth = (7 ∷ [], refl, refl);
  back = (8 ∷ [], refl, refl);
  knows_responder = refl;
  knows_initiator = refl;
  same_hash = refl;
}

-- The second message is lost.
abbrev talk : List Event
talk = forth greeting true ∷ forth (1 ∷ []) false ∷ back (2 ∷ []) true ∷ forth (3 ∷ []) true ∷ []

exchange-ArePaired_example :
    (exchange toy talk session_a session_b).2 ≡ ok greeting ∷ ok (2 ∷ []) ∷ ok (3 ∷ []) ∷ []
exchange-ArePaired_example =
    exchange-ArePaired toy tag-IsSealing talk session_a session_b (toy.public_of secret_a)
      (toy.public_of secret_b) sessions-ArePaired (omega arith) (omega arith)

abbrev manager_a : NoiseSessionManager
manager_a = new_manager secret_a

abbrev manager_b : NoiseSessionManager
manager_b = new_manager secret_b

managers-ArePaired_example :
    (a1 : NoiseSessionManager) × (b1 : NoiseSessionManager) × (a2 : NoiseSessionManager)
    × (b2 : NoiseSessionManager) × (m1 : Bytes) × (m2 : Bytes) × (m3 : Bytes) × (initiate_handshake
          toy draw_a bob manager_a
        ≡ (a1, ok m1))
    × (handle_incoming_handshake toy draw_b alice m1 manager_b ≡ (b1, ok (some m2)))
    × (handle_incoming_handshake toy draw_b bob m2 a1 ≡ (a2, ok (some m3)))
    × (handle_incoming_handshake toy draw_b alice m3 b1 ≡ (b2, ok none))
    × (get_peer_fingerprint bob a2 ≡ some (get_identity_fingerprint toy manager_b))
    × (get_peer_fingerprint alice b2 ≡ some (get_identity_fingerprint toy manager_a))
    × (i : NoiseSession) × (r : NoiseSession) × (get_session bob a2 ≡ some i)
    × (get_session alice b2 ≡ some r)
    × ArePaired i r (toy.public_of secret_a) (toy.public_of secret_b)
unfolding new_manager get_session lookup
managers-ArePaired_example =
    managers-ArePaired toy toy-IsAgreeing manager_a manager_b alice bob draw_a draw_b draw_b draw_b
      refl refl valid_a valid_b

-- After a first handshake message to bob.
abbrev called : NoiseSessionManager
called = (initiate_handshake toy draw_a bob manager_a).0

called-Reachable : Reachable toy called
called-Reachable = stepping (starting secret_a) (initiating draw_a bob)

Reachable-IsSound_example : IsSound (initiate_handshake toy draw_a bob manager_a).0
Reachable-IsSound_example = Reachable-IsSound toy called-Reachable

called-IsSound : IsSound called
called-IsSound = Reachable-IsSound toy called-Reachable

transport_same_example :
    (encrypt_message toy bob greeting called ≡ encrypt toy greeting bob called)
    × (decrypt_message toy bob draw_a called ≡ decrypt toy draw_a bob called)
transport_same_example = transport_same toy bob greeting draw_a called

encrypt_message-outcomes_example :
    ((has_session bob called ≡ false)
      × (encrypt_message toy bob greeting called ≡ (called, err NoiseError.session_not_found)))
    ⊎ (((has_session bob called ≡ true)
          × (has_established_session bob called ≡ false)
          × (encrypt_message toy bob greeting called ≡ (called, err NoiseError.not_established)))
        ⊎ ((has_established_session bob called ≡ true)
            × ((s : NoiseSession) × (c : NoiseCipherState) × (lookup bob called.sessions ≡ some s)
                × (s.send_cipher ≡ some c)
                × (let (c', answer) = Cipher.encrypt tag_aead greeting [] c in
                    encrypt_message toy bob greeting called
                    ≡ (put_session bob (record s { send_cipher = some c' }) called, answer)))))
encrypt_message-outcomes_example = encrypt_message-outcomes toy bob greeting called-Reachable

bob_ne_nobody : [] ≢ bob
bob_ne_nobody e = absurd (ground (arith, e))

alice_ne_nobody : [] ≢ alice
alice_ne_nobody e = absurd (ground (arith, e))

differ : bob ≢ alice
differ e = absurd (ground (arith, e))

-- A manager with an established session with bob.
abbrev settled : NoiseSessionManager
settled = record manager_a {
  sessions = (bob, session_a) ∷ [];
  peer_fingerprints = (bob, greeting) ∷ [];
}

settled-IsSound : IsSound settled
unfolding lookup is_consistent new_session new_manager
settled-IsSound = record {
  consistent = (refl, tt);
  one_session = (refl, tt);
  one_fingerprint = (refl, tt);
}

migrate_session-moves_example :
    (get_session alice (migrate_session bob alice settled) ≡ some session_a)
    × (get_peer_fingerprint alice (migrate_session bob alice settled) ≡ some greeting)
    × (get_peer_id_for_fingerprint greeting (migrate_session bob alice settled) ≡ some alice)
    × (get_session bob (migrate_session bob alice settled) ≡ none)
    × (get_peer_fingerprint bob (migrate_session bob alice settled) ≡ none)
    × (get_session [] (migrate_session bob alice settled) ≡ get_session [] settled)
    × (get_peer_fingerprint [] (migrate_session bob alice settled)
        ≡ get_peer_fingerprint [] settled)
    × (get_encryption_status bob (migrate_session bob alice settled)
        ≡ get_encryption_status bob settled)
    × (get_encryption_status alice (migrate_session bob alice settled)
        ≡ get_encryption_status alice settled)
unfolding get_session get_peer_fingerprint lookup bytes_beq
migrate_session-moves_example =
    migrate_session-moves settled bob alice [] greeting session_a settled-IsSound differ
      bob_ne_nobody alice_ne_nobody refl refl

initiate_twice_example :
    (m1 : NoiseSessionManager) × (m2 : NoiseSessionManager) × (message : Bytes)
    × (h1 : NoiseHandshakeState) × (h2 : NoiseHandshakeState) × (s1 : NoiseSession)
    × (s2 : NoiseSession) × (initiate_handshake toy draw_a bob manager_a ≡ (m1, ok message))
    × (get_session bob m1 ≡ some s1)
    × (s1.handshake_state ≡ some h1)
    × (h1.local_ephemeral_private ≡ some draw_a)
    × (initiate_handshake toy draw_b bob m1 ≡ (m2, err NoiseError.missing_keys))
    × (get_session bob m2 ≡ some s2)
    × (s2.handshake_state ≡ some h2)
    × (h2.local_ephemeral_private ≡ some draw_b)
unfolding get_session new_manager lookup
initiate_twice_example = initiate_twice toy manager_a bob draw_a draw_b refl
