-- ===== src/Fragments/Relay.antt =====
-- A relayed frame, as the next peer parses it.
use bitchat_tui.Base.{ℕ, ◌-◌, ◌<◌, ◌≡◌, arith, [], ◌∷◌, some, length, ok, err}
use bitchat_tui.Bytes.{Bytes}
use bitchat_tui.Text.{HexCrate}
use bitchat_tui.Compression.{Inflate}
use bitchat_tui.Packet.Types.{BitchatPacket}
use bitchat_tui.Packet.Parse.{Header, ParseError, parse_header, parse_bitchat_packet_core}
use bitchat_tui.Fragments.Receive.{relay}

header-set_ttl :
    (b0 b1 b2 t : ℕ) (d3 : Bytes) (r : Header × Bytes)
    → parse_header (b0 ∷ b1 ∷ b2 ∷ d3) ≡ ok r
    → parse_header (b0 ∷ b1 ∷ t ∷ d3) ≡ ok (record r.0 { ttl = t }, r.1)
unfolding parse_header
header-set_ttl b0 b1 b2 t d3 r h = ground arith

module _ (hex : HexCrate) (inflate : Inflate) where
  core-set_ttl :
      (b0 b1 b2 t : ℕ) (d3 : Bytes) (p : BitchatPacket)
      → parse_bitchat_packet_core hex inflate (b0 ∷ b1 ∷ b2 ∷ d3) ≡ ok p
      → parse_bitchat_packet_core hex inflate (b0 ∷ b1 ∷ t ∷ d3) ≡ ok (record p { ttl = t })
  unfolding parse_bitchat_packet_core
  core-set_ttl b0 b1 b2 t d3 p h = grind (arith, header-set_ttl b0 b1 b2 t d3)

  core_too_small :
      (frame : Bytes)
      → length frame < 3
      → parse_bitchat_packet_core hex inflate frame ≡ err ParseError.packet_too_small
  unfolding parse_bitchat_packet_core
  core_too_small frame h = ground arith

  -- A frame that is relayed is parsed by the next peer as the same packet with one hop less, and
  -- with a hop left.
  pub relay_lem :
      (frame relayed : Bytes) (p : BitchatPacket)
      → parse_bitchat_packet_core hex inflate frame ≡ ok p
      → relay p.ttl frame ≡ some relayed
      → (0 < p.ttl - 1)
        × (parse_bitchat_packet_core hex inflate relayed ≡ ok (record p { ttl = p.ttl - 1 }))
  unfolding relay
  relay_lem (b0 ∷ b1 ∷ b2 ∷ d3) relayed p h r =
      (ground arith, ground (arith, core-set_ttl b0 b1 b2 (p.ttl - 1) d3 p h))
  relay_lem [] relayed p h r = absurd (ground (arith, core_too_small []))
  relay_lem (b0 ∷ []) relayed p h r = absurd (ground (arith, core_too_small (b0 ∷ [])))
  relay_lem (b0 ∷ b1 ∷ []) relayed p h r = absurd (ground (arith, core_too_small (b0 ∷ b1 ∷ [])))
