-- ===== src/Tests/Fragments.antt =====
-- Fragments: a packet cut, sent and put together.
use bitchat_tui.Base.{ℕ, ◌+◌, ◌≡◌, refl, arith, [], ◌∷◌, true, false, length, replicate}
use bitchat_tui.Bytes.{Bytes}
use bitchat_tui.Hex.{hex_encode}
use bitchat_tui.Maps.{lookup}
use bitchat_tui.Packet.Types.{message}
use bitchat_tui.Packet.Encode.{id_bytes_from_str}
use bitchat_tui.Fragments
use bitchat_tui.Fragments.{FragmentCollector}
use bitchat_tui.Fragments.Send.{
  chunks, chunks_loop, fragment_size, send_packet_with_fragmentation_as,
}
use bitchat_tui.Fragments.Reassembly.{feed, feed_lem, feed_incomplete, IsIdle}
use bitchat_tui.Fragments.Delivery.{deliver, deliver-send_packet}
use bitchat_tui.Tests.Values.{plain_hex, no_inflate, alice, fragment_id}

new-IsIdle : IsIdle fragment_id Fragments.new
unfolding lookup
new-IsIdle = record { fragments = refl; metadata = refl }

abbrev letters : ℕ → Bytes
letters i = (i + 65) ∷ []

feed_lem_example :
    feed fragment_id 3 2 alice letters (2 ∷ 0 ∷ 2 ∷ 1 ∷ []) Fragments.new
    ≡ (Fragments.new, (65 ∷ 66 ∷ 67 ∷ [], alice) ∷ [])
feed_lem_example =
    feed_lem fragment_id 3 2 alice letters Fragments.new (2 ∷ 0 ∷ 2 ∷ []) 1 new-IsIdle (omega arith)
      (omega arith) refl (λ i lt ne. ground arith)

feed_incomplete_example : (feed fragment_id 3 2 alice letters (2 ∷ 0 ∷ 2 ∷ []) Fragments.new).1 ≡ []
feed_incomplete_example =
    feed_incomplete fragment_id 3 2 alice letters Fragments.new (2 ∷ 0 ∷ 2 ∷ []) 1 new-IsIdle
      (omega arith) (omega arith) refl

abbrev long_packet : Bytes
long_packet = replicate 501 7

four_chunks : length (chunks fragment_size long_packet) ≡ 4
unfolding chunks chunks_loop
four_chunks = refl

deliver-send_packet_example :
    deliver plain_hex no_inflate
      (λ m. false)
      (send_packet_with_fragmentation_as plain_hex false alice
        (λ i. 5)
        fragment_id
        (λ _. true)
        long_packet
        message).0
      (2 ∷ 0 ∷ 3 ∷ 0 ∷ 1 ∷ [])
      Fragments.new
    ≡ (Fragments.new, (long_packet, hex_encode (id_bytes_from_str plain_hex alice)) ∷ [])
deliver-send_packet_example =
    deliver-send_packet plain_hex no_inflate false alice (λ i. 5) (λ m. false) fragment_id
      long_packet message Fragments.new (2 ∷ 0 ∷ 3 ∷ 0 ∷ []) 1 refl (omega arith) (omega arith)
      (λ i. omega arith) new-IsIdle (rw four_chunks (omega arith)) (rw four_chunks (omega arith))
      refl (rw four_chunks (λ i lt ne. ground arith))
