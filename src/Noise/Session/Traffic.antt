-- ===== src/Noise/Session/Traffic.antt =====
-- The transport messages of two sessions, in both directions, over a link that may lose them.
pub mod Link
pub mod Exchange
use bitchat_tui.Base.{
  ℕ, ◌+◌, ◌≤◌, ◌<◌, ◌^◌, ◌≡◌, ◌∙◌, refl, arith, [], ◌∷◌, ◌++◌, List, Bool, true, false,
  if◌then◌else◌, some, Result, ok, err, panic,
}
use bitchat_tui.Bytes.{Bytes}
use bitchat_tui.Noise.Cipher.{NoiseError, NoiseCipherState, new_with_key, mark_nonce_as_seen}
use bitchat_tui.Noise.Cipher.Window.{highest_of, elem, is_valid_nonce-Tracks}
use bitchat_tui.Noise.Cipher.Replay.{
  Receives, fresh-Receives, mark-Receives, Inverts, decrypt-encrypt,
}
use bitchat_tui.Noise.Symmetric.{Crypto}
use bitchat_tui.Noise.Symmetric.Laws.{IsSealing}
use bitchat_tui.Noise.Session.{NoiseSession, established, encrypt, decrypt}
use bitchat_tui.Noise.Session.Agreement.{ArePaired}

-- The initiator (`forth`) or the responder (`back`) sends a text, which arrives or is lost.
pub data Event : Type 0 where
  forth back : Bytes → Bool → Event

module _ (crypto : Crypto) where
  -- One side encrypts, and the other decrypts what arrives.
  unfoldable pub transfer :
      Bytes
      → Bool
      → NoiseSession
      → NoiseSession
      → NoiseSession × NoiseSession × List (Result NoiseError Bytes)
  transfer text arrives sender receiver =
      let (sender', sealed) = encrypt crypto text sender in
      elim sealed [
        | err e ↦ (sender', receiver, err e ∷ [])
        | panic ↦ (sender', receiver, panic ∷ [])
        | ok frame ↦
            let (receiver', opened) = decrypt crypto frame receiver in
            if arrives then (sender', receiver', opened ∷ []) else (sender', receiver, [])
      ]

  unfoldable pub exchange :
      List Event
      → NoiseSession
      → NoiseSession
      → NoiseSession × NoiseSession × List (Result NoiseError Bytes)
  exchange [] i r = (i, r, [])
  exchange (forth text arrives ∷ events) i r =
      let (i', r', got) = transfer text arrives i r in
      let (i2, r2, rest) = exchange events i' r' in (i2, r2, got ++ rest)
  exchange (back text arrives ∷ events) i r =
      let (r', i', got) = transfer text arrives r i in
      let (i2, r2, rest) = exchange events i' r' in (i2, r2, got ++ rest)

-- What has to be received: the texts that arrive, in their order.
abbrev pub texts_of : List Event → List (Result NoiseError Bytes)
texts_of [] = []
texts_of (forth text arrives ∷ events) = (if arrives then ok text ∷ [] else []) ++ texts_of events
texts_of (back text arrives ∷ events) = (if arrives then ok text ∷ [] else []) ++ texts_of events

-- How many messages the initiator and the responder send.
abbrev pub count_forth : List Event → ℕ
count_forth [] = 0
count_forth (forth _ _ ∷ events) = count_forth events + 1
count_forth (back _ _ ∷ events) = count_forth events

abbrev pub count_back : List Event → ℕ
count_back [] = 0
count_back (forth _ _ ∷ events) = count_back events
count_back (back _ _ ∷ events) = count_back events + 1
