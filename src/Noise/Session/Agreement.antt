-- ===== src/Noise/Session/Agreement.antt =====
-- Two sessions that exchange the three messages of a handshake.
use bitchat_tui.Base.{◌≡◌, refl, ◌∙◌, arith, [], ◌++◌, true, false, none, some, ok}
use bitchat_tui.Bytes.{Bytes}
use bitchat_tui.Text.{Text}
use bitchat_tui.Noise.Cipher.{NoiseCipherState, new_with_key}
use bitchat_tui.Noise.Symmetric.{
  Crypto, NoiseSymmetricState, new_symmetric, new_cipher, has_key, mix_hash, split_ciphers,
}
use bitchat_tui.Noise.Handshake.{
  initiator, responder, xx, NoiseHandshakeState, new_handshake, mix_pre_message_keys, full_name,
  write_message, read_message, is_handshake_complete, get_transport_ciphers, message_patterns_of,
}
use bitchat_tui.Noise.Handshake.Keys.{validate_public_key}
use bitchat_tui.Noise.Handshake.Party.{IsAgreeing, party, after_first}
use bitchat_tui.Noise.Handshake.Agreement.{first_written, first_read, second_message, third_message}
use bitchat_tui.Noise.Session.{
  NoiseSession, established, handshaking, new_session, begin_handshake, start_handshake,
  with_handshake, push_sent, establish, handshake_complete_now, respond, process_handshake_message,
}

-- Two established sessions whose ciphers belong together, who know each other's static key and
-- agree on the hash of the handshake.
pub record ArePaired (i r : NoiseSession) (public_i public_r : Bytes) : Type 0 where
  pub initiator_established : i.state ≡ established
  pub responder_established : r.state ≡ established
  pub forth :
      (key : Bytes) × (i.send_cipher ≡ some (new_with_key key true))
      × (r.receive_cipher ≡ some (new_with_key key true))
  pub back :
      (key : Bytes) × (r.send_cipher ≡ some (new_with_key key true))
      × (i.receive_cipher ≡ some (new_with_key key true))
  pub knows_responder : i.remote_static_public_key ≡ some public_r
  pub knows_initiator : r.remote_static_public_key ≡ some public_i
  pub same_hash : i.handshake_hash ≡ r.handshake_hash

module _ (crypto : Crypto) where
  -- Both parties start from the name of the protocol.
  abbrev pub start_state : NoiseSymmetricState
  start_state = mix_hash crypto [] (new_symmetric crypto (full_name xx))

  start_keyless : has_key start_state.cipher_state ≡ false
  unfolding mix_hash new_symmetric new_cipher has_key
  start_keyless = refl

  start_counts : start_state.cipher_state.use_extracted_nonce ≡ false
  unfolding mix_hash new_symmetric new_cipher
  start_counts = refl

  -- A session in the middle of a handshake.
  abbrev pub amid : NoiseSession → NoiseHandshakeState → NoiseSession
  amid s h = record s { handshake_state = some h; state = handshaking }

  pub started :
      (peer : Text) (si ei : Bytes)
      → let m = (crypto.public_of ei ++ []) ++ [] in
        start_handshake crypto ei (new_session peer initiator si none) ≡ (
          push_sent m (
              amid (new_session peer initiator si none) (
                party crypto initiator
                  (after_first crypto ei start_state)
                  si
                  (some ei)
                  none
                  none
                  1)),
          ok m,
        )
  unfolding start_handshake new_session begin_handshake with_handshake push_sent new_handshake
      mix_pre_message_keys party
  started peer si ei = ground (arith, first_written crypto start_state si ei start_keyless)

  -- A responder that gets its first message begins by itself.
  woken :
      (peer : Text) (sr er message : Bytes)
      → process_handshake_message crypto er message (new_session peer responder sr none)
        ≡ process_handshake_message crypto er message (
            amid
              (new_session peer responder sr none)
              (party crypto responder start_state sr none none none 0))
  unfolding process_handshake_message new_session begin_handshake new_handshake mix_pre_message_keys
      party
  woken peer sr er message = refl

  -- A message in the middle is answered.
  answered :
      (s : NoiseSession) (h h1 h2 : NoiseHandshakeState) (ephemeral message payload m : Bytes)
      → read_message crypto message h ≡ (h1, ok payload)
      → is_handshake_complete crypto h1 ≡ false
      → write_message crypto ephemeral [] h1 ≡ (h2, ok m)
      → is_handshake_complete crypto h2 ≡ false
      → process_handshake_message crypto ephemeral message (amid s h)
        ≡ (push_sent m (amid s h2), ok (some m))
  unfolding process_handshake_message with_handshake respond handshake_complete_now push_sent
  answered s h h1 h2 ephemeral message payload m er more ew more' = ground (arith, er, ew)

  -- A session whose handshake `h` is complete.
  abbrev finished :
      NoiseSession → NoiseHandshakeState → NoiseCipherState → NoiseCipherState → NoiseSession
  finished s h send receive = record s {
    send_cipher = some send;
    receive_cipher = some receive;
    remote_static_public_key = h.remote_static_public;
    handshake_hash = some h.symmetric_state.hash;
    state = established;
    handshake_state = none;
  }

  -- The answer that completes the handshake.
  finished_by_answer :
      (s : NoiseSession) (h h1 h2 : NoiseHandshakeState) (send receive : NoiseCipherState)
      (ephemeral message payload m : Bytes)
      → read_message crypto message h ≡ (h1, ok payload)
      → is_handshake_complete crypto h1 ≡ false
      → write_message crypto ephemeral [] h1 ≡ (h2, ok m)
      → is_handshake_complete crypto h2 ≡ true
      → get_transport_ciphers crypto h2 ≡ ok (send, receive)
      → process_handshake_message crypto ephemeral message (amid s h)
        ≡ (finished (push_sent m (amid s h2)) h2 send receive, ok (some m))
  unfolding process_handshake_message with_handshake respond handshake_complete_now push_sent
      establish
  finished_by_answer s h h1 h2 send receive ephemeral message payload m er more ew closed eg =
      ground (arith, er, ew, eg)

  -- The message that completes the handshake.
  finished_by_message :
      (s : NoiseSession) (h h1 : NoiseHandshakeState) (send receive : NoiseCipherState)
      (ephemeral message payload : Bytes)
      → read_message crypto message h ≡ (h1, ok payload)
      → is_handshake_complete crypto h1 ≡ true
      → get_transport_ciphers crypto h1 ≡ ok (send, receive)
      → process_handshake_message crypto ephemeral message (amid s h)
        ≡ (finished (amid s h1) h1 send receive, ok none)
  unfolding process_handshake_message with_handshake respond handshake_complete_now establish
  finished_by_message s h h1 send receive ephemeral message payload er closed eg =
      ground (arith, er, eg)

  module _ (law : IsAgreeing crypto) where
    -- A fresh initiator and a fresh responder that exchange the three messages of an XX handshake are
    -- both established, and paired: each sends with the key that the other receives with, they know
    -- each other's static key and agree on the hash. The crates keep their promises, and both static
    -- keys are valid.
    pub handshake-ArePaired :
        (peer_i peer_r : Text) (si ei sr er unused_i unused_r : Bytes)
        → validate_public_key (crypto.public_of si) ≡ ok (crypto.public_of si)
        → validate_public_key (crypto.public_of sr) ≡ ok (crypto.public_of sr)
        → (i1 : NoiseSession) × (r1 : NoiseSession) × (i2 : NoiseSession) × (r2 : NoiseSession)
          × (m1 : Bytes) × (m2 : Bytes) × (m3 : Bytes) × (start_handshake crypto ei
                (new_session peer_r initiator si none)
              ≡ (i1, ok m1))
          × (process_handshake_message crypto er m1 (new_session peer_i responder sr none)
              ≡ (r1, ok (some m2)))
          × (process_handshake_message crypto unused_i m2 i1 ≡ (i2, ok (some m3)))
          × (process_handshake_message crypto unused_r m3 r1 ≡ (r2, ok none))
          × ArePaired i2 r2 (crypto.public_of si) (crypto.public_of sr)
    unfolding party is_handshake_complete message_patterns_of get_transport_ciphers split_ciphers
        push_sent new_session mix_hash
    handshake-ArePaired peer_i peer_r si ei sr er unused_i unused_r valid_i valid_r =
        let t1 = after_first crypto ei start_state in
        let m1 = (crypto.public_of ei ++ []) ++ [] in
        let (t2, m2, k2, written2, read2) =
          second_message crypto law t1 si ei sr er start_counts valid_r in
        let (t3, m3, written3, read3) =
          third_message crypto law t2 si ei sr er unused_i k2 valid_i in
        let i0 = new_session peer_r initiator si none in
        let r0 = new_session peer_i responder sr none in
        let (c1, c2) = split_ciphers crypto t3 in
        (
          _,
          _,
          _,
          _,
          m1,
          m2,
          m3,
          started peer_r si ei,
          woken peer_i sr er m1
              ∙ answered r0 _ _ _ er m1 [] m2
                  (first_read crypto law start_state sr ei start_keyless) refl written2 refl,
          finished_by_answer (push_sent m1 i0) _ _ _ c1 c2 unused_i m2 [] m3 read2 refl written3
              refl refl,
          finished_by_message (push_sent m2 r0) _ _ c2 c1 unused_r m3 [] read3 refl refl,
          record {
            initiator_established = refl;
            responder_established = refl;
            forth = (_, refl, refl);
            back = (_, refl, refl);
            knows_responder = refl;
            knows_initiator = refl;
            same_hash = refl;
          },
        )
