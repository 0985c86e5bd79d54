-- ===== src/Noise/Handshake/Agreement.antt =====
-- The XX handshake between two parties: what each message does to both.
use bitchat_tui.Base.{
  ◌≡◌, ◌∙◌, arith, [], ◌++◌, append-nil, append_assoc, true, false, none, some, length, ok, ap,
}
use bitchat_tui.Bytes.{Bytes}
use bitchat_tui.Bytes.Laws.{split-append}
use bitchat_tui.Noise.Symmetric.{
  Crypto, NoiseSymmetricState, has_key, mix_hash, mix_key, decrypt_and_hash,
}
use bitchat_tui.Noise.Symmetric.Laws.{IsKeyed, encrypt-decrypt_and_hash}
use bitchat_tui.Noise.Handshake.Keys.{validate_public_key}
use bitchat_tui.Noise.Handshake.{
  initiator, responder, message_patterns_of, mix_dh, mix_token, write_token, write_tokens,
  write_message, take_or, read_token, read_tokens, read_payload, read_message,
  is_handshake_complete, next_pattern,
}
use bitchat_tui.Noise.Handshake.Party.{
  IsAgreeing, has_key-mix_hash, plain_sealed, plain_opened, mix_key-IsKeyed, mix_hash_counts,
  has_key_of, party, after_first,
}

module _ (crypto : Crypto) where
  pub first_written :
      (t : NoiseSymmetricState) (si ei : Bytes)
      → has_key t.cipher_state ≡ false
      → write_message crypto ei [] (party crypto initiator t si none none none 0) ≡ (
        party crypto initiator (after_first crypto ei t) si (some ei) none none 1,
        ok ((crypto.public_of ei ++ []) ++ []),
      )
  unfolding write_message write_tokens write_token party message_patterns_of is_handshake_complete
      next_pattern
  first_written t si ei h = ground (
    arith,
    plain_sealed crypto [] (mix_hash crypto (crypto.public_of ei) t),
    has_key-mix_hash crypto (crypto.public_of ei) t,
  )

  module _ (law : IsAgreeing crypto) where
    pub first_read :
        (t : NoiseSymmetricState) (sr ei : Bytes)
        → has_key t.cipher_state ≡ false
        → read_message crypto
            ((crypto.public_of ei ++ []) ++ [])
            (party crypto responder t sr none none none 0)
          ≡ (
            party crypto responder
                (after_first crypto ei t)
                sr
                none
                none
                (some (crypto.public_of ei))
                1,
            ok [],
          )
    unfolding read_message read_tokens read_token take_or read_payload party message_patterns_of
        is_handshake_complete next_pattern
    first_read t sr ei h =
        let public = crypto.public_of ei in
        rw (append-nil public, append-nil public)
          (ground (
            arith,
            split-append 32 public [] (law.size ei),
            append-nil public,
            has_key-mix_hash crypto public t,
            plain_opened crypto [] (mix_hash crypto public t),
          ))

    -- What the initiator does with the answer `c1`, `c2` behind the ephemeral key.
    second_read :
        (t t3 t4 t6 : NoiseSymmetricState) (si ei sr er c1 c2 : Bytes)
        → mix_key crypto
            (crypto.diffie_hellman ei (crypto.public_of er))
            (mix_hash crypto (crypto.public_of er) t)
          ≡ t3
        → has_key t3.cipher_state ≡ true
        → decrypt_and_hash crypto c1 t3 ≡ (t4, ok (crypto.public_of sr))
        → decrypt_and_hash crypto c2
            (mix_key crypto (crypto.diffie_hellman ei (crypto.public_of sr)) t4)
          ≡ (t6, ok [])
        → length c1 ≡ 48
        → validate_public_key (crypto.public_of sr) ≡ ok (crypto.public_of sr)
        → read_message crypto
            (crypto.public_of er ++ (c1 ++ c2))
            (party crypto initiator t si (some ei) none none 1)
          ≡ (
            party crypto initiator t6 si
                (some ei)
                (some (crypto.public_of sr))
                (some (crypto.public_of er))
                2,
            ok [],
          )
    unfolding read_message read_tokens read_token take_or read_payload party message_patterns_of
        is_handshake_complete next_pattern mix_token mix_dh
    second_read t t3 t4 t6 si ei sr er c1 c2 same keyed opened1 opened2 size valid = ground (
      arith,
      split-append 32 (crypto.public_of er) (c1 ++ c2) (law.size er),
      split-append 48 c1 c2 size,
      law.size sr,
    )

    -- The responder's answer: both parties reach the same state, with a key, and the initiator
    -- knows the responder's static key.
    pub second_message :
        (t : NoiseSymmetricState) (si ei sr er : Bytes)
        → t.cipher_state.use_extracted_nonce ≡ false
        → validate_public_key (crypto.public_of sr) ≡ ok (crypto.public_of sr)
        → (t' : NoiseSymmetricState) × (m : Bytes) × IsKeyed t'
          × (write_message crypto er []
                (party crypto responder t sr none none (some (crypto.public_of ei)) 1)
              ≡ (party crypto responder t' sr (some er) none (some (crypto.public_of ei)) 2, ok m))
          × (read_message crypto m (party crypto initiator t si (some ei) none none 1) ≡ (
            party crypto initiator t' si
                (some ei)
                (some (crypto.public_of sr))
                (some (crypto.public_of er))
                2,
            ok [],
          ))
    unfolding write_message write_tokens write_token read_message read_tokens read_token take_or
        read_payload party message_patterns_of is_handshake_complete next_pattern mix_token mix_dh
    second_message t si ei sr er counts valid =
        let t2 = mix_hash crypto (crypto.public_of er) t in
        let t3 = mix_key crypto (crypto.diffie_hellman er (crypto.public_of ei)) t2 in
        let k3 =
          mix_key-IsKeyed crypto (crypto.diffie_hellman er (crypto.public_of ei)) t2
            (mix_hash_counts crypto (crypto.public_of er) t counts) in
        let (t4, c1, sealed1, opened1, size1, k4) =
          encrypt-decrypt_and_hash crypto law.seals (crypto.public_of sr) t3 k3 in
        let t5 = mix_key crypto (crypto.diffie_hellman sr (crypto.public_of ei)) t4 in
        let k5 =
          mix_key-IsKeyed crypto (crypto.diffie_hellman sr (crypto.public_of ei)) t4 k4.counts in
        let (t6, c2, sealed2, opened2, size2, k6) =
          encrypt-decrypt_and_hash crypto law.seals [] t5 k5 in
        (
          t6,
          (crypto.public_of er ++ (c1 ++ [])) ++ c2,
          k6,
          ground (arith, sealed1, sealed2),
          rw (append-nil c1, append_assoc (crypto.public_of er) c1 c2)
              (second_read t t3 t4 t6 si ei sr er c1 c2
                (ap (λ secret. mix_key crypto secret t2) (law.agrees ei er))
                (has_key_of crypto t3 k3) opened1
                (ap (λ secret. decrypt_and_hash crypto c2 (mix_key crypto secret t4))
                    (law.agrees ei sr)
                  ∙ opened2)
                (omega (arith, law.size sr)) valid),
        )

    -- What the responder does with the last message.
    third_read :
        (t t7 t9 : NoiseSymmetricState) (si ei sr er c1 c2 : Bytes)
        → has_key t.cipher_state ≡ true
        → decrypt_and_hash crypto c1 t ≡ (t7, ok (crypto.public_of si))
        → decrypt_and_hash crypto c2
            (mix_key crypto (crypto.diffie_hellman er (crypto.public_of si)) t7)
          ≡ (t9, ok [])
        → length c1 ≡ 48
        → validate_public_key (crypto.public_of si) ≡ ok (crypto.public_of si)
        → read_message crypto
            (c1 ++ c2)
            (party crypto responder t sr (some er) none (some (crypto.public_of ei)) 2)
          ≡ (
            party crypto responder t9 sr
                (some er)
                (some (crypto.public_of si))
                (some (crypto.public_of ei))
                3,
            ok [],
          )
    unfolding read_message read_tokens read_token take_or read_payload party message_patterns_of
        is_handshake_complete next_pattern mix_token mix_dh
    third_read t t7 t9 si ei sr er c1 c2 keyed opened1 opened2 size valid =
        ground (arith, split-append 48 c1 c2 size, law.size si)

    -- The initiator's second message: the handshake is complete on both sides, in the same state,
    -- and the responder knows the initiator's static key.
    pub third_message :
        (t : NoiseSymmetricState) (si ei sr er unused : Bytes)
        → IsKeyed t
        → validate_public_key (crypto.public_of si) ≡ ok (crypto.public_of si)
        → (t' : NoiseSymmetricState) × (m : Bytes) × (write_message crypto unused [] (
              party crypto initiator t si
                (some ei)
                (some (crypto.public_of sr))
                (some (crypto.public_of er))
                2)
            ≡ (
              party crypto initiator t' si
                  (some ei)
                  (some (crypto.public_of sr))
                  (some (crypto.public_of er))
                  3,
              ok m,
            ))
          × (read_message crypto m
                (party crypto responder t sr (some er) none (some (crypto.public_of ei)) 2)
              ≡ (
                party crypto responder t' sr
                    (some er)
                    (some (crypto.public_of si))
                    (some (crypto.public_of ei))
                    3,
                ok [],
              ))
    unfolding write_message write_tokens write_token party message_patterns_of is_handshake_complete
        next_pattern mix_token mix_dh
    third_message t si ei sr er unused k valid =
        let (t7, c1, sealed1, opened1, size1, k7) =
          encrypt-decrypt_and_hash crypto law.seals (crypto.public_of si) t k in
        let secret = crypto.diffie_hellman si (crypto.public_of er) in
        let t8 = mix_key crypto secret t7 in
        let (t9, c2, sealed2, opened2, size2, k9) =
          encrypt-decrypt_and_hash crypto law.seals [] t8
            (mix_key-IsKeyed crypto secret t7 k7.counts) in
        (
          t9,
          (c1 ++ []) ++ c2,
          ground (arith, sealed1, sealed2),
          rw (append-nil c1) (
              third_read t t7 t9 si ei sr er c1 c2 (has_key_of crypto t k) opened1
                (ap (λ x. decrypt_and_hash crypto c2 (mix_key crypto x t7)) (law.agrees er si)
                  ∙ opened2)
                (omega (arith, law.size si)) valid),
        )
