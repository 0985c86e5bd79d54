-- ===== src/Fragments/Delivery.antt =====
-- The theorem about a whole packet: what send_packet_with_fragmentation writes, in any order of
-- arrival, gives the packet back.
use bitchat_tui.Base.{
  ℕ, zero, suc, ◌+◌, ◌%◌, ◌^◌, ◌≤◌, ◌<◌, ◌≡◌, ◌≢◌, refl, ◌∙◌, ap, arith, [], ◌∷◌, ◌++◌, List,
  length, get_or, All, Bool, true, false, Option, none, some, ok, err, panic, lt→ltb, All-append,
}
use bitchat_tui.Bytes.{Bytes}
use bitchat_tui.Text.{Text, HexCrate}
use bitchat_tui.Compression.{Inflate}
use bitchat_tui.Packet.Types.{MessageType, fragment_start, type_byte, BitchatPacket}
use bitchat_tui.Packet.Encode.{id_bytes_from_str}
use bitchat_tui.Packet.Parse.{parse_bitchat_packet}
use bitchat_tui.Packet.Stages.{sent_packet}
use bitchat_tui.Fragments.{FragmentCollector, add_fragment}
use bitchat_tui.Fragments.Send.{
  chunks, fragment_size, fragment_bytes, fragment_packet, send_fragments,
  send_packet_with_fragmentation_as,
}
use bitchat_tui.Fragments.Receive.{handle_fragment_packet}
use bitchat_tui.Fragments.Reassembly.{feed, feed_lem, IsIdle}
use bitchat_tui.Fragments.Fill.{elem}
use bitchat_tui.Fragments.Chunks.{concat-chunks, chunks_sizes, length-chunks, chunks_from-get_or}
use bitchat_tui.Fragments.EndToEnd.{parse_fragment, handle_fragment}

module _ (hex : HexCrate) (inflate : Inflate) (stops : Bytes × Text → Bool) where
  -- A received frame is parsed and, as a fragment, handled.
  unfoldable pub receive_frame :
      Bytes → FragmentCollector → FragmentCollector × Option (Bytes × Text)
  receive_frame frame c = elim (parse_bitchat_packet hex inflate frame) [
    | ok packet ↦ let h = handle_fragment_packet stops packet frame c in (h.collector, h.completed)
    | err e ↦ (c, none)
    | panic ↦ (c, none)
  ]

  -- The frames come in the order of the list of their positions; the messages completed are
  -- collected.
  unfoldable pub deliver :
      List Bytes → List ℕ → FragmentCollector → FragmentCollector × List (Bytes × Text)
  deliver frames [] c = (c, [])
  deliver frames (i ∷ is) c =
      let (c', done) = receive_frame (get_or frames i []) c in
      let (c'', rest) = deliver frames is c' in
      (c'', elim done [ none ↦ rest | some message ↦ message ∷ rest ])

  receive_of_parse :
      (frame : Bytes) (p : BitchatPacket) (c : FragmentCollector)
      → parse_bitchat_packet hex inflate frame ≡ ok p
      → let h = handle_fragment_packet stops p frame c in
        receive_frame frame c ≡ (h.collector, h.completed)
  unfolding receive_frame
  receive_of_parse frame p c h = rw (h, receive_frame)

All-get_or :
    (pieces : List Bytes) (i : ℕ)
    → All (λ piece. length piece ≤ 150) pieces
    → length (get_or pieces i []) ≤ 150
All-get_or [] i h = omega arith
All-get_or (piece ∷ pieces) zero (h, hs) = h
All-get_or (piece ∷ pieces) (suc i) (h, hs) = All-get_or pieces i hs

module _ (hex : HexCrate) (inflate : Inflate) (windows : Bool) (sender : Text) (clock : ℕ → ℕ) where
  get_or-send_fragments :
      (id : Bytes) (total original_type k : ℕ) (pieces : List Bytes) (i : ℕ)
      → i < length pieces
      → get_or
          (send_fragments hex windows sender clock id total original_type (λ _. true) k pieces).0
          i
          []
        ≡ fragment_packet hex windows sender clock id total original_type
            (k + i)
            (get_or pieces i [])
  unfolding send_fragments
  get_or-send_fragments id total original_type k [] i h = absurd (omega arith)
  get_or-send_fragments id total original_type k (piece ∷ pieces) zero h =
      ap (λ j. fragment_packet hex windows sender clock id total original_type j piece)
        (omega arith)
  get_or-send_fragments id total original_type k (piece ∷ pieces) (suc i) h =
      get_or-send_fragments id total original_type (k + 1) pieces i (omega arith)
      ∙ ap
          (λ j.
            fragment_packet hex windows sender clock id total original_type j (get_or pieces i []))
          (omega arith)

  module _ (stops : Bytes × Text → Bool) (id : Bytes) (n original_type : ℕ) (pieces : List Bytes)
      (eight : length id ≡ 8) (count : length pieces ≡ n) (small : n ≤ 10000)
      (sizes : All (λ piece. length piece ≤ 150) pieces) (ticks : (i : ℕ) → clock i < 2 ^ 64) where
    receive_sent :
        (i : ℕ) (c : FragmentCollector)
        → i < n
        → receive_frame hex inflate stops
            (get_or
              (send_fragments hex windows sender clock id n original_type (λ _. true) 0 pieces).0
              i
              [])
            c
          ≡ add_fragment id i n original_type
              (get_or pieces i [])
              (hex.encode (id_bytes_from_str hex sender))
              c
    unfolding sent_packet
    receive_sent i c lt =
        let chunk = get_or pieces i [] in
        let frame = fragment_packet hex windows sender clock id n original_type i chunk in
        let payload = fragment_bytes id i n original_type chunk in
        let packet = sent_packet hex 1 sender none fragment_start payload none 7 (clock i) in
        let parsed =
          parse_fragment hex inflate windows sender clock id n original_type i chunk eight
            (All-get_or pieces i sizes) (ticks i) in
        ap (λ f. receive_frame hex inflate stops f c)
          (get_or-send_fragments id n original_type 0 pieces i (omega arith)
            ∙ ap (λ j. fragment_packet hex windows sender clock id n original_type j chunk)
                (omega arith))
        ∙ receive_of_parse hex inflate stops frame packet c parsed
        ∙ handle_fragment hex inflate windows sender clock id n original_type i chunk eight stops
            packet frame c refl lt small

    deliver_sent :
        (order : List ℕ) (c : FragmentCollector)
        → All (λ i. i < n) order
        → deliver hex inflate stops
            (send_fragments hex windows sender clock id n original_type (λ _. true) 0 pieces).0
            order
            c
          ≡ feed id n original_type
              (hex.encode (id_bytes_from_str hex sender))
              (λ i. get_or pieces i [])
              order
              c
    unfolding deliver feed
    deliver_sent [] c h = refl
    deliver_sent (i ∷ order) c (lt, h) = ground (
      arith,
      receive_sent i c lt,
      deliver_sent order
          (add_fragment id i n original_type (get_or pieces i [])
            (hex.encode (id_bytes_from_str hex sender)) c).0
          h,
    )

  -- A packet of more than 500 bytes, and at most 1500000, is written as fragments. If every write
  -- succeeds, and if the receiver, idle for the random id, gets each fragment, in any order and
  -- with repetitions, then when the last missing one comes it has the packet, once, with the
  -- sender's id, and its collector is what it was before.
  pub deliver-send_packet :
      (stops : Bytes × Text → Bool) (id packet : Bytes) (t : MessageType) (c : FragmentCollector)
      (front : List ℕ) (last : ℕ)
      → length id ≡ 8
      → 500 < length packet
      → length packet ≤ 1500000
      → ((i : ℕ) → clock i < 2 ^ 64)
      → IsIdle id c
      → last < length (chunks fragment_size packet)
      → All (λ i. i < length (chunks fragment_size packet)) front
      → elem last front ≡ false
      → ((i : ℕ) → i < length (chunks fragment_size packet) → i ≢ last → elem i front ≡ true)
      → deliver hex inflate stops
          (send_packet_with_fragmentation_as hex windows sender clock id (λ _. true) packet t).0
          (front ++ (last ∷ []))
          c
        ≡ (c, (packet, hex.encode (id_bytes_from_str hex sender)) ∷ [])
  unfolding send_packet_with_fragmentation_as
  deliver-send_packet stops id packet t c front last eight big small ticks idle lt below missing
        cover =
      let pieces = chunks fragment_size packet in
      let n = length pieces in
      let author = hex.encode (id_bytes_from_str hex sender) in
      let bounds = length-chunks fragment_size packet (omega arith) in
      let few : n ≤ 10000 = omega arith in
      let fits : n % 2 ^ 16 ≡ n = omega arith in
      rw (lt→ltb 500 (length packet) big, fits)
        (deliver_sent stops id n (type_byte t) pieces eight refl few (chunks_sizes 150 packet) ticks
            (front ++ (last ∷ [])) c (All-append (λ i. i < n) front (last ∷ []) below (lt, tt))
          ∙ feed_lem id n (type_byte t) author (λ i. get_or pieces i []) c front last idle lt below
              missing cover
          ∙ ap (λ whole. (c, (whole, author) ∷ []))
              (chunks_from-get_or pieces ∙ concat-chunks fragment_size packet (omega arith)))
