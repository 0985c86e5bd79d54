-- ===== src/Fragments/Receive.antt =====
-- The fragment part of `handle_fragment_packet` in src/notification_handlers.rs: the fragment
-- header, its checks, the collector and the relay. What is done with a complete message is a
-- parameter: `stops` says whether that code returns from the handler, which skips the relay.
use bitchat_tui.Base.{
  ℕ, ◌+◌, ◌-◌, ◌*◌, ◌||◌, not, Bool, false, if◌then◌else◌, ltb, leb, ◌==◌, Option, none, some,
  length, take, drop, get_or, set,
}
use bitchat_tui.Bytes.{Bytes}
use bitchat_tui.Text.{Text}
use bitchat_tui.Packet.Types.{BitchatPacket, type_byte, file_transfer}
use bitchat_tui.Fragments.{FragmentCollector, add_fragment}

pub record FragmentHeader : Type 0 where
  pub fragment_id : Bytes
  pub index : ℕ
  pub total : ℕ
  pub original_type : ℕ
  pub fragment_data : Bytes

-- Behind `payload.len() >= 13`; `(hi << 8) | lo` of two bytes is `hi * 256 + lo`.
unfoldable pub fragment_header : Bytes → FragmentHeader
fragment_header payload = record {
  fragment_id = take 8 payload;
  index = get_or payload 8 0 * 256 + get_or payload 9 0;
  total = get_or payload 10 0 * 256 + get_or payload 11 0;
  original_type = get_or payload 12 0;
  fragment_data = drop 13 payload;
}

unfoldable pub is_refused : FragmentHeader → Bool
is_refused h = h.total == 0 || ltb 10000 h.total || leb h.total h.index

pub record Handled : Type 0 where
  pub collector : FragmentCollector
  pub completed : Option (Bytes × Text)
  pub relayed : Option Bytes

-- `relay_data[2] = packet.ttl - 1`, on a frame that has been parsed and so is long enough, behind `packet.ttl > 1`
unfoldable pub relay : ℕ → Bytes → Option Bytes
relay ttl frame = if ltb 1 ttl then some (set frame 2 (ttl - 1)) else none

unfoldable pub handle_fragment_packet :
    (Bytes × Text → Bool) → BitchatPacket → Bytes → FragmentCollector → Handled
unfolding is_refused
handle_fragment_packet stops packet frame c =
    if not (leb 13 (length packet.payload))
    then record { collector = c; completed = none; relayed = relay packet.ttl frame }
    else (let h = fragment_header packet.payload in
        if is_refused h
        then record { collector = c; completed = none; relayed = none }
        else (let (c', done) =
              add_fragment h.fragment_id h.index h.total h.original_type h.fragment_data
                packet.sender_id_str c in
            let stopped : Bool = elim done [ none ↦ false | some message ↦ stops message ] in
            record {
              collector = c';
              completed = done;
              relayed =
                  if stopped || h.original_type == type_byte file_transfer
                  then none
                  else relay packet.ttl frame;
            }))
