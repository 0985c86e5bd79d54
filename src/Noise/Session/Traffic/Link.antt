-- ===== src/Noise/Session/Traffic/Link.antt =====
-- One direction of two sessions whose ciphers belong together.
use bitchat_tui.Base.{
  ℕ, ◌+◌, ◌≤◌, ◌<◌, ◌^◌, ◌≡◌, ◌∙◌, refl, arith, [], ◌∷◌, List, Bool, true, false, if◌then◌else◌,
  some, ok,
}
use bitchat_tui.Bytes.{Bytes}
use bitchat_tui.Noise.Cipher.{NoiseCipherState, new_with_key, mark_nonce_as_seen}
use bitchat_tui.Noise.Cipher.Window.{highest_of, elem, is_valid_nonce-Tracks}
use bitchat_tui.Noise.Cipher.Replay.{
  Receives, fresh-Receives, mark-Receives, Inverts, decrypt-encrypt,
}
use bitchat_tui.Noise.Symmetric.{Crypto}
use bitchat_tui.Noise.Symmetric.Laws.{IsSealing}
use bitchat_tui.Noise.Session.{NoiseSession, established, encrypt, decrypt}
use bitchat_tui.Noise.Session.Traffic.{transfer}

-- The direction from `sender` to `receiver`, after messages with counters below `n`.
pub record Linked (sender receiver : NoiseSession) (n : ℕ) : Type 0 where
  sends : sender.state ≡ established
  receives : receiver.state ≡ established
  key : Bytes
  history : List ℕ
  send_cipher : NoiseCipherState
  receive_cipher : NoiseCipherState
  has_send : sender.send_cipher ≡ some send_cipher
  has_receive : receiver.receive_cipher ≡ some receive_cipher
  keyed : send_cipher.key ≡ some key
  transport : send_cipher.use_extracted_nonce ≡ true
  counter : send_cipher.nonce ≡ n
  window : Receives key history receive_cipher
  low : highest_of history ≤ n
  new : (k : ℕ) → n ≤ k → elem k history ≡ false

pub paired-Linked :
    (i r : NoiseSession) (key : Bytes)
    → i.state ≡ established
    → r.state ≡ established
    → i.send_cipher ≡ some (new_with_key key true)
    → r.receive_cipher ≡ some (new_with_key key true)
    → Linked i r 0
unfolding new_with_key
paired-Linked i r key ei er es ec = record {
  sends = ei;
  receives = er;
  key = key;
  history = [];
  send_cipher = new_with_key key true;
  receive_cipher = new_with_key key true;
  has_send = es;
  has_receive = ec;
  keyed = refl;
  transport = refl;
  counter = refl;
  window = fresh-Receives key;
  low = omega arith;
  new = λ k h. refl;
}

-- What a transfer leaves of the other direction.
pub record Apart (i r i' r' : NoiseSession) : Type 0 where
  state_i : i'.state ≡ i.state
  state_r : r'.state ≡ r.state
  receive_i : i'.receive_cipher ≡ i.receive_cipher
  send_r : r'.send_cipher ≡ r.send_cipher

pub Apart-Linked :
    (i r i' r' : NoiseSession) (n : ℕ) → Apart i r i' r' → Linked r i n → Linked r' i' n
Apart-Linked i r i' r' n a l = record {
  sends = a.state_r ∙ l.sends;
  receives = a.state_i ∙ l.receives;
  key = l.key;
  history = l.history;
  send_cipher = l.send_cipher;
  receive_cipher = l.receive_cipher;
  has_send = a.send_r ∙ l.has_send;
  has_receive = a.receive_i ∙ l.has_receive;
  keyed = l.keyed;
  transport = l.transport;
  counter = l.counter;
  window = l.window;
  low = l.low;
  new = l.new;
}

module _ (crypto : Crypto) (law : IsSealing crypto.aead) where
  inverts : (key : Bytes) → Inverts crypto.aead key
  inverts key = record {
    correct = λ nonce associated_data plaintext.
        let (c, sealed, opened, size) = law.sealed key nonce associated_data plaintext in
        (c, sealed, opened);
  }

  transfer_both :
      (i r : NoiseSession) (n : ℕ) (text : Bytes)
      → Linked i r n
      → n < 2 ^ 32
      → (i' : NoiseSession) × (r' : NoiseSession) × (transfer crypto text true i r
          ≡ (i', r', ok text ∷ []))
        × (transfer crypto text false i r ≡ (i', r, []))
        × Linked i' r' (n + 1)
        × Linked i' r (n + 1)
        × Apart i r i' r'
        × Apart i r i' r
  unfolding transfer encrypt decrypt
  transfer_both i r n text l small =
      let c = l.send_cipher in
      let d = l.receive_cipher in
      let (frame, sealed, opened) =
        decrypt-encrypt crypto.aead l.key l.history c d text [] (inverts l.key) l.keyed l.transport
          (omega (arith, l.counter)) l.window (l.new c.nonce (omega (arith, l.counter)))
          (omega (arith, l.counter, l.low)) in
      let i' = record i { send_cipher = some (record c { nonce = c.nonce + 1 }) } in
      let r' = record r { receive_cipher = some (mark_nonce_as_seen c.nonce d) } in
      (
        i',
        r',
        ground (arith, l.sends, l.receives, l.has_send, l.has_receive),
        ground (arith, l.sends, l.has_send),
        record {
          sends = l.sends;
          receives = l.receives;
          key = l.key;
          history = c.nonce ∷ l.history;
          send_cipher = record c { nonce = c.nonce + 1 };
          receive_cipher = mark_nonce_as_seen c.nonce d;
          has_send = refl;
          has_receive = refl;
          keyed = l.keyed;
          transport = l.transport;
          counter = omega (arith, l.counter);
          window = mark-Receives l.key l.history d c.nonce l.window (
              ground (
                arith,
                is_valid_nonce-Tracks d l.history c.nonce l.window.tracks,
                l.new c.nonce,
                l.low,
                l.counter,
              ));
          low = ground (arith, l.low, l.counter);
          new = λ k h. ground (arith, l.new k, l.counter);
        },
        record {
          sends = l.sends;
          receives = l.receives;
          key = l.key;
          history = l.history;
          send_cipher = record c { nonce = c.nonce + 1 };
          receive_cipher = d;
          has_send = refl;
          has_receive = l.has_receive;
          keyed = l.keyed;
          transport = l.transport;
          counter = omega (arith, l.counter);
          window = l.window;
          low = omega (arith, l.low);
          new = λ k h. l.new k (omega arith);
        },
        record { state_i = refl; state_r = refl; receive_i = refl; send_r = refl },
        record { state_i = refl; state_r = refl; receive_i = refl; send_r = refl },
      )

  pub transfer_lem :
      (arrives : Bool) (i r : NoiseSession) (n : ℕ) (text : Bytes)
      → Linked i r n
      → n < 2 ^ 32
      → (i' : NoiseSession) × (r' : NoiseSession) × (transfer crypto text arrives i r
          ≡ (i', r', if arrives then ok text ∷ [] else []))
        × Linked i' r' (n + 1)
        × Apart i r i' r'
  transfer_lem true i r n text l small =
      let (i', r', e, e', l1, l2, a1, a2) = transfer_both i r n text l small in (i', r', e, l1, a1)
  transfer_lem false i r n text l small =
      let (i', r', e, e', l1, l2, a1, a2) = transfer_both i r n text l small in (i', r, e', l2, a2)
