-- ===== src/Noise/Manager/Transport.antt =====
-- The two ways to encrypt for a peer, and when they answer what.
use bitchat_tui.Base.{◌≡◌, arith, Option-cases, inl, inr}
use bitchat_tui.Bytes.{Bytes}
use bitchat_tui.Text.{Text}
use bitchat_tui.Maps.{bytes_eq, lookup}
use bitchat_tui.Maps.Entries.{insert-lookup}
use bitchat_tui.Noise.Symmetric.{Crypto}
use bitchat_tui.Noise.Session.{is_established}
use bitchat_tui.Noise.Session
use bitchat_tui.Noise.Manager.{NoiseSessionManager}
use bitchat_tui.Noise.Manager.Sessions.{
  put_session, on_session, encrypt, decrypt, encrypt_message, decrypt_message,
}

module _ (crypto : Crypto) where
  pub encrypt_message-encrypt :
      (peer : Text) (text : Bytes) (m : NoiseSessionManager)
      → encrypt_message crypto peer text m ≡ encrypt crypto text peer m
  unfolding encrypt_message encrypt on_session put_session Session.encrypt is_established
  encrypt_message-encrypt peer text m = elim (Option-cases (lookup peer m.sessions)) [
    | inl (s, e) ↦ ground (arith, insert-lookup peer s m.sessions e)
    | inr e ↦ ground arith
  ]

  pub decrypt_message-decrypt :
      (peer : Text) (frame : Bytes) (m : NoiseSessionManager)
      → decrypt_message crypto peer frame m ≡ decrypt crypto frame peer m
  unfolding decrypt_message decrypt on_session put_session Session.decrypt is_established
  decrypt_message-decrypt peer frame m = elim (Option-cases (lookup peer m.sessions)) [
    | inl (s, e) ↦ ground (arith, insert-lookup peer s m.sessions e)
    | inr e ↦ ground arith
  ]

  -- `encrypt_message` and `decrypt_message`, which look into the session themselves, do what
  -- `encrypt` and `decrypt` do through the session's methods: the same answers and the same sessions
  -- afterwards, with every error.
  pub transport_same :
      (peer : Text) (text frame : Bytes) (m : NoiseSessionManager)
      → (encrypt_message crypto peer text m ≡ encrypt crypto text peer m)
        × (decrypt_message crypto peer frame m ≡ decrypt crypto frame peer m)
  transport_same peer text frame m =
      (encrypt_message-encrypt peer text m, decrypt_message-decrypt peer frame m)
