-- ===== src/Fragments/Send.antt =====
-- src/fragmentation.rs: a packet of more than 500 bytes is sent as fragments of 150 bytes. The
-- random fragment id and the clock are arguments, and `link` says whether the write of each packet
-- of the call succeeds. What is written is also queued for the peripheral role.
use bitchat_tui.Base.{
  ℕ, zero, suc, ◌+◌, ◌/◌, ◌%◌, ◌^◌, [], ◌∷◌, ◌++◌, List, Bool, true, false, if◌then◌else◌, ltb, leb,
  ◌==◌, length, take, drop, set,
}
use bitchat_tui.Bytes.{Bytes}
use bitchat_tui.Text.{Text, HexCrate}
use bitchat_tui.Packet.Types.{MessageType, fragment_start, type_byte}
use bitchat_tui.Packet.Encode.{create_bitchat_packet}

abbrev pub max_fragment_size : ℕ
max_fragment_size = 500

abbrev pub fragment_size : ℕ
fragment_size = 150

abbrev pub ios_fragment_packet_type : ℕ
ios_fragment_packet_type = 0x20

-- `slice.chunks(size)`; each round takes a byte at least, so the length is enough fuel.
unfoldable pub chunks_loop : ℕ → ℕ → Bytes → List Bytes
chunks_loop zero size bytes = []
chunks_loop (suc fuel) size [] = []
chunks_loop (suc fuel) size (b ∷ bs) =
    take size (b ∷ bs) ∷ chunks_loop fuel size (drop size (b ∷ bs))

unfoldable pub chunks : ℕ → Bytes → List Bytes
chunks size bytes = chunks_loop (length bytes) size bytes

pub data FragmentType : Type 0 where
  start continue end : FragmentType

pub record Fragment : Type 0 where
  pub fragment_id : Bytes
  pub fragment_type : FragmentType
  pub index : ℕ
  pub total : ℕ
  pub original_type : ℕ
  pub bytes : Bytes

-- The closure that `fragment_payload` maps over the chunks, `count` in all, from index `i` on.
unfoldable pub number_fragments : Bytes → ℕ → ℕ → ℕ → List Bytes → List Fragment
number_fragments id original_type count i [] = []
number_fragments id original_type count i (chunk ∷ rest) =
    record {
      fragment_id = id;
      fragment_type = if i == 0 then start else if suc i == count then end else continue;
      index = i % 2 ^ 16;
      total = count % 2 ^ 16;
      original_type = original_type;
      bytes = chunk;
    }
    ∷ number_fragments id original_type count (i + 1) rest

unfoldable pub fragment_payload : Bytes → Bytes → ℕ → List Fragment
fragment_payload fragment_id payload original_type =
    if leb (length payload) max_fragment_size
    then []
    else (let pieces = chunks max_fragment_size payload in
        number_fragments fragment_id original_type (length pieces) 0 pieces)

-- id (8), index (2), total (2), type (1), chunk; `>> 8` and `& 0xFF` on a u16.
unfoldable pub fragment_bytes : Bytes → ℕ → ℕ → ℕ → Bytes → Bytes
fragment_bytes id index total original_type chunk =
    id
    ++ ((index % 2 ^ 16 / 256)
        ∷ (index % 2 ^ 16 % 256)
        ∷ (total / 256)
        ∷ (total % 256)
        ∷ original_type
        ∷ chunk)

-- `packet[1] = IOS_FRAGMENT_PACKET_TYPE`, if the packet has such a byte.
unfoldable pub as_ios_fragment : Bytes → Bytes
as_ios_fragment packet =
    if ltb 1 (length packet) then set packet 1 ios_fragment_packet_type else packet

unfoldable pub should_fragment : Bytes → Bool
should_fragment packet = ltb 500 (length packet)

module _ (hex : HexCrate) (windows : Bool) (sender : Text) (clock : ℕ → ℕ) where
  unfoldable pub create_fragment_packet : Fragment → Bytes
  create_fragment_packet f = as_ios_fragment (
      create_bitchat_packet hex windows sender fragment_start
        (fragment_bytes f.fragment_id f.index f.total f.original_type f.bytes) (clock f.index))

  module _ (id : Bytes) (total original_type : ℕ) where
    -- One round of the loop: the packet for the chunk at `index`.
    unfoldable pub fragment_packet : ℕ → Bytes → Bytes
    fragment_packet index chunk = as_ios_fragment (
        create_bitchat_packet hex windows sender fragment_start
          (fragment_bytes id index total original_type chunk) (clock index))

    -- The packets written, and whether all were; a failed write ends the loop with an error.
    unfoldable pub send_fragments : (ℕ → Bool) → ℕ → List Bytes → List Bytes × Bool
    send_fragments link index [] = ([], true)
    send_fragments link index (chunk ∷ rest) =
        let (sent, done) = send_fragments link (index + 1) rest in
        if link index then (fragment_packet index chunk ∷ sent, done) else ([], false)

  unfoldable pub send_packet_with_fragmentation_as :
      Bytes → (ℕ → Bool) → Bytes → MessageType → List Bytes × Bool
  send_packet_with_fragmentation_as id link packet original_type =
      if ltb 500 (length packet)
      then (let pieces = chunks fragment_size packet in
          send_fragments id (length pieces % 2 ^ 16) (type_byte original_type) link 0 pieces)
      else if link 0
      then (packet ∷ [], true)
      else ([], false)

  unfoldable pub send_packet_with_fragmentation : Bytes → (ℕ → Bool) → Bytes → List Bytes × Bool
  send_packet_with_fragmentation id link packet =
      send_packet_with_fragmentation_as id link packet MessageType.message
