-- ===== src/Packet/Safety.antt =====
-- `parse_bitchat_packet` on arbitrary bytes: it does not panic, and what it accepts is well formed.
use bitchat_tui.Base.{
  ℕ, ◌-◌, ◌≤◌, ◌<◌, ◌≡◌, ◌≢◌, ◌⊎◌, refl, arith, [], ◌∷◌, none, some, length, take, drop,
  length-drop, ok, panic,
}
use bitchat_tui.Bytes.{Bytes, split}
use bitchat_tui.Bytes.Laws.{split_inv}
use bitchat_tui.Text.{HexCrate}
use bitchat_tui.Compression.{Inflate}
use bitchat_tui.Packet.Types.{BitchatPacket, is_supported}
use bitchat_tui.Packet.Padding.Laws.{unpad_returns}
use bitchat_tui.Packet.Parse.{
  Header, parse_header, parse_recipient, skip_route, parse_signature, decompress_payload,
  parse_bitchat_packet_core, parse_bitchat_packet,
}

split_total :
    (n : ℕ) (rest : Bytes)
    → n ≤ length rest
    → (xs : Bytes) × (ys : Bytes) × (split n rest ≡ some (xs, ys)) × (length ys ≡ length rest - n)
unfolding split
split_total n rest h = (take n rest, drop n rest, ground arith, length-drop n rest)

nonempty : (rest : Bytes) → 0 < length rest → (b : ℕ) × (ys : Bytes) × (rest ≡ b ∷ ys)
nonempty [] h = absurd (omega arith)
nonempty (b ∷ ys) h = (b, ys, refl)

header_ne_panic : (frame : Bytes) → 12 ≤ length frame → parse_header frame ≢ panic
unfolding parse_header
header_ne_panic (b0 ∷ b1 ∷ b2 ∷ d3) h =
    let (ts, d4, e3, l3) = split_total 8 d3 (omega arith) in
    let (flags, d5, e4) = nonempty d4 (omega arith) in ground (arith, e3, e4)
header_ne_panic _ h = absurd (omega arith)

recipient_ne_panic : (flags : ℕ) (rest : Bytes) → parse_recipient flags rest ≢ panic
unfolding parse_recipient
recipient_ne_panic flags rest = ground arith

route_ne_panic : (version flags : ℕ) (rest : Bytes) → skip_route version flags rest ≢ panic
unfolding skip_route
route_ne_panic version flags rest = ground arith

signature_ne_panic : (flags : ℕ) (rest : Bytes) → parse_signature flags rest ≢ panic
unfolding parse_signature
signature_ne_panic flags rest = ground arith

decompress_ne_panic :
    (inflate : Inflate) (version flags : ℕ) (payload : Bytes)
    → decompress_payload inflate version flags payload ≢ panic
unfolding decompress_payload
decompress_ne_panic inflate version flags payload = ground arith

module _ (hex : HexCrate) (inflate : Inflate) where
  core_ne_panic : (frame : Bytes) → parse_bitchat_packet_core hex inflate frame ≢ panic
  unfolding parse_bitchat_packet_core
  core_ne_panic frame = grind (
    arith,
    header_ne_panic frame,
    recipient_ne_panic,
    route_ne_panic,
    signature_ne_panic,
    decompress_ne_panic inflate,
  )

  -- `parse_bitchat_packet` does not panic on any bytes, with or without padding.
  pub parse_ne_panic : (frame : Bytes) → parse_bitchat_packet hex inflate frame ≢ panic
  unfolding parse_bitchat_packet
  parse_ne_panic frame =
      let (unpadded, returned) = unpad_returns frame in
      ground (arith, returned, core_ne_panic frame, core_ne_panic unpadded)

-- What holds of every accepted packet.
pub record IsWellFormed (hex : HexCrate) (p : BitchatPacket) : Type 0 where
  pub version : (p.version ≡ 1) ⊎ (p.version ≡ 2)
  pub sender : length p.sender_id ≡ 8
  pub sender_str : p.sender_id_str ≡ hex.encode p.sender_id
  pub recipient : (id : Bytes) → p.recipient_id ≡ some id → length id ≡ 8
  pub recipient_str :
      p.recipient_id_str ≡ elim p.recipient_id [ some id ↦ some (hex.encode id) | none ↦ none ]
  pub signature : (sig : Bytes) → p.signature ≡ some sig → length sig ≡ 64

header_version :
    (frame : Bytes) (r : Header × Bytes)
    → parse_header frame ≡ ok r
    → (r.0.version ≡ 1) ⊎ (r.0.version ≡ 2)
unfolding parse_header is_supported
header_version (b0 ∷ frame) r e = ground arith
header_version [] r e = ground arith

split-length : (n : ℕ) (rest : Bytes) (r : Bytes × Bytes) → split n rest ≡ some r → length r.0 ≡ n
split-length n rest r e = (split_inv n rest r.0 r.1 e).1

recipient_length :
    (flags : ℕ) (rest id rest' : Bytes)
    → parse_recipient flags rest ≡ ok (some id, rest')
    → length id ≡ 8
unfolding parse_recipient
recipient_length flags rest id rest' e = ground (arith, split_inv 8 rest id rest')

signature_length :
    (flags : ℕ) (rest sig rest' : Bytes)
    → parse_signature flags rest ≡ ok (some sig, rest')
    → length sig ≡ 64
unfolding parse_signature
signature_length flags rest sig rest' e = ground (arith, split_inv 64 rest sig rest')

module _ (hex : HexCrate) (inflate : Inflate) where
  core-IsWellFormed :
      (frame : Bytes) (p : BitchatPacket)
      → parse_bitchat_packet_core hex inflate frame ≡ ok p
      → IsWellFormed hex p
  unfolding parse_bitchat_packet_core
  core-IsWellFormed frame p e = record {
    version = grind (arith, header_version frame);
    sender = grind (arith, split-length 8);
    sender_str = ground arith;
    recipient = λ id h. grind (arith, recipient_length);
    recipient_str = ground arith;
    signature = λ sig h. grind (arith, signature_length);
  }

  -- Whatever the bytes, an accepted packet has version 1 or 2, ids of eight bytes with their hex
  -- forms, and a signature of 64 bytes if it has one.
  pub parse-IsWellFormed :
      (frame : Bytes) (p : BitchatPacket)
      → parse_bitchat_packet hex inflate frame ≡ ok p
      → IsWellFormed hex p
  unfolding parse_bitchat_packet
  parse-IsWellFormed frame p e =
      let (unpadded, returned) = unpad_returns frame in
      ground (arith, returned, core-IsWellFormed frame p, core-IsWellFormed unpadded p)
