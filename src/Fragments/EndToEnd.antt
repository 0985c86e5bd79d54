-- ===== src/Fragments/EndToEnd.antt =====
-- From the sender's packet to the receiver's: the fragments of src/fragmentation.rs through the
-- parser, the fragment handler and the collector.
use bitchat_tui.Base.{
  ℕ, ◌+◌, ◌/◌, ◌%◌, ◌^◌, ◌≤◌, ◌<◌, ◌≡◌, refl, arith, [], ◌∷◌, ◌++◌, length, append_assoc,
  length-append, Bool, none, ok,
}
use bitchat_tui.Bytes.{Bytes}
use bitchat_tui.Text.{Text, HexCrate}
use bitchat_tui.Compression.{Inflate}
use bitchat_tui.Packet.Types.{fragment_start, type_of_byte, BitchatPacket}
use bitchat_tui.Packet.Encode.{
  create_bitchat_packet, create_bitchat_packet_with_recipient, create_frame,
}
use bitchat_tui.Packet.Parse.{parse_bitchat_packet, parse_bitchat_packet_core}
use bitchat_tui.Packet.Stages.{sent_packet}
use bitchat_tui.Packet.Frames.{core_v1}
use bitchat_tui.Packet.RoundTrip.{pad_unless_tail, parse_of_core}
use bitchat_tui.Fragments.{FragmentCollector, add_fragment}
use bitchat_tui.Fragments.Send.{fragment_bytes, fragment_packet, as_ios_fragment}
use bitchat_tui.Fragments.Receive.{handle_fragment_packet, fragment_header}

as_ios_fragment_lem : (a b : ℕ) (rest : Bytes) → as_ios_fragment (a ∷ b ∷ rest) ≡ a ∷ 0x20 ∷ rest
unfolding as_ios_fragment
as_ios_fragment_lem a b rest = ground arith

-- The receiver reads the header that was written.
header-fragment_bytes :
    (id : Bytes) (total original_type i : ℕ) (chunk : Bytes)
    → length id ≡ 8
    → i < 2 ^ 16
    → total < 2 ^ 16
    → fragment_header (fragment_bytes id i total original_type chunk) ≡ record {
      fragment_id = id;
      index = i;
      total = total;
      original_type = original_type;
      fragment_data = chunk;
    }
unfolding fragment_header fragment_bytes
header-fragment_bytes (a ∷ b ∷ c ∷ d ∷ e ∷ f ∷ g ∷ h ∷ []) total original_type i chunk eight hi ht =
    ground arith
header-fragment_bytes _ total original_type i chunk eight hi ht = absurd (omega arith)

-- A frame whose type byte has been overwritten by 0x20 is parsed as a fragment.
core_fragment :
    (hex : HexCrate) (inflate : Inflate) (sender : Text) (payload tail : Bytes) (time : ℕ)
    → length payload < 2 ^ 16
    → time < 2 ^ 64
    → parse_bitchat_packet_core hex inflate
        (as_ios_fragment (create_frame hex sender none fragment_start payload none time ++ tail))
      ≡ ok (sent_packet hex 1 sender none fragment_start payload none 7 time)
unfolding create_frame
core_fragment hex inflate sender payload tail time hp ht =
    let fits : length payload % 2 ^ 16 ≡ length payload = omega arith in
    rw (as_ios_fragment_lem, fits)
      (simp append_assoc (
        core_v1 hex inflate sender none 0x20 fragment_start payload none 7 time tail
          (unfold type_of_byte in refl) hp ht tt))

module _ (hex : HexCrate) (inflate : Inflate) (windows : Bool) (sender : Text) (clock : ℕ → ℕ) where
  module _ (id : Bytes) (total original_type i : ℕ) (chunk : Bytes) (eight : length id ≡ 8) where
    length-fragment_bytes :
        length (fragment_bytes id i total original_type chunk) ≡ 13 + length chunk
    unfolding fragment_bytes
    length-fragment_bytes = omega (
      arith,
      length-append id (
          (i % 2 ^ 16 / 256)
          ∷ (i % 2 ^ 16 % 256)
          ∷ (total / 256)
          ∷ (total % 256)
          ∷ original_type
          ∷ chunk),
    )

    pub parse_fragment :
        length chunk ≤ 150
        → clock i < 2 ^ 64
        → parse_bitchat_packet hex inflate
            (fragment_packet hex windows sender clock id total original_type i chunk)
          ≡ ok (
              sent_packet hex 1 sender none fragment_start
                (fragment_bytes id i total original_type chunk)
                none
                7
                (clock i))
    unfolding fragment_packet create_bitchat_packet create_bitchat_packet_with_recipient
    parse_fragment hc ht =
        let payload = fragment_bytes id i total original_type chunk in
        let size = length-fragment_bytes in
        let (tail, padded) =
          pad_unless_tail windows
            (create_frame hex sender none fragment_start payload none (clock i)) in
        parse_of_core hex inflate _ _
          (rw padded (core_fragment hex inflate sender payload tail (clock i) (omega arith) ht))

    -- The handler passes the fragment on to the collector.
    pub handle_fragment :
        (stops : Bytes × Text → Bool) (p : BitchatPacket) (frame : Bytes) (c : FragmentCollector)
        → p.payload ≡ fragment_bytes id i total original_type chunk
        → i < total
        → total ≤ 10000
        → let h = handle_fragment_packet stops p frame c in
          (h.collector, h.completed) ≡ add_fragment id i total original_type chunk p.sender_id_str c
    unfolding handle_fragment_packet
    handle_fragment stops p frame c hp lt small =
        ground
          (arith, header-fragment_bytes id total original_type i chunk eight, length-fragment_bytes)
