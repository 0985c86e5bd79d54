-- ===== src/Noise/Session/Traffic/Exchange.antt =====
-- What two paired sessions receive.
use bitchat_tui.Base.{ℕ, ◌+◌, ◌≤◌, ◌^◌, ◌≡◌, refl, arith, [], ◌∷◌, List}
use bitchat_tui.Bytes.{Bytes}
use bitchat_tui.Noise.Symmetric.{Crypto}
use bitchat_tui.Noise.Symmetric.Laws.{IsSealing}
use bitchat_tui.Noise.Session.{NoiseSession}
use bitchat_tui.Noise.Session.Agreement.{ArePaired}
use bitchat_tui.Noise.Session.Traffic.{
  Event, forth, back, exchange, texts_of, count_forth, count_back,
}
use bitchat_tui.Noise.Session.Traffic.Link.{Linked, paired-Linked, Apart-Linked, transfer_lem}

module _ (crypto : Crypto) (law : IsSealing crypto.aead) where
  exchange-Linked :
      (events : List Event) (i r : NoiseSession) (n m : ℕ)
      → Linked i r n
      → Linked r i m
      → n + count_forth events ≤ 2 ^ 32
      → m + count_back events ≤ 2 ^ 32
      → (exchange crypto events i r).2 ≡ texts_of events
  unfolding exchange
  exchange-Linked [] i r n m l k hn hm = refl
  exchange-Linked (forth text arrives ∷ events) i r n m l k hn hm =
      let (i', r', e, l', a) = transfer_lem crypto law arrives i r n text l (omega arith) in
      let rest =
        exchange-Linked events i' r' (n + 1) m l' (Apart-Linked i r i' r' m a k) (omega arith) hm in
      rw (e, rest) refl
  exchange-Linked (back text arrives ∷ events) i r n m l k hn hm =
      let (r', i', e, k', a) = transfer_lem crypto law arrives r i m text k (omega arith) in
      let rest =
        exchange-Linked events i' r' n (m + 1) (Apart-Linked r i r' i' n a l) k' hn (omega arith) in
      rw (e, rest) refl

  -- Two paired sessions send each other messages in any order, at most 2^32 each way, over a link
  -- that may lose any of them: exactly the texts that arrive are received, in their order, and none
  -- is refused. The AEAD crate keeps its promises.
  pub exchange-ArePaired :
      (events : List Event) (i r : NoiseSession) (public_i public_r : Bytes)
      → ArePaired i r public_i public_r
      → count_forth events ≤ 2 ^ 32
      → count_back events ≤ 2 ^ 32
      → (exchange crypto events i r).2 ≡ texts_of events
  exchange-ArePaired events i r public_i public_r p few_forth few_back =
      let (key_i, send_i, receive_r) = p.forth in
      let (key_r, send_r, receive_i) = p.back in
      exchange-Linked events i r 0 0
        (paired-Linked i r key_i p.initiator_established p.responder_established send_i receive_r)
        (paired-Linked r i key_r p.responder_established p.initiator_established send_r receive_i)
        (omega arith) (omega arith)
