-- ===== src/Packet/Encode/Layout.antt =====
-- What the encoders write, whatever the `hex` crate answers.
use bitchat_tui.Base.{
  ℕ, ◌-◌, ◌≡◌, arith, length, replicate, length-append, length-replicate, length-take, Option-cases,
  inl, inr,
}
use bitchat_tui.Bytes.{Bytes}
use bitchat_tui.Text.{Text, HexCrate}
use bitchat_tui.Packet.Encode.{fit_eight, id_bytes_from_str}

pub length-fit_eight : (bytes : Bytes) → length (fit_eight bytes) ≡ 8
unfolding fit_eight
length-fit_eight bytes = ground (
  arith,
  length-append bytes (replicate (8 - length bytes) 0),
  length-replicate {A = ℕ} (8 - length bytes) 0,
  length-take 8 bytes,
)

pub length-id_bytes : (hex : HexCrate) (id : Text) → length (id_bytes_from_str hex id) ≡ 8
unfolding id_bytes_from_str
length-id_bytes hex id = elim (Option-cases (hex.decode id)) [
  | inr e ↦ rw (e, id_bytes_from_str) (length-fit_eight id)
  | inl (bytes, e) ↦ rw (e, id_bytes_from_str) (length-fit_eight bytes)
]
