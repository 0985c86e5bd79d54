-- ===== src/Delivery.antt =====
-- Acknowledgements: `should_send_ack` of src/packet_delivery.rs.
pub mod Tracker
use bitchat_tui.Base.{
  ℕ, [], ◌∷◌, Bool, true, false, ◌||◌, if◌then◌else◌, ltb, Option, none, some, List,
}
use bitchat_tui.Text.{Text}
use bitchat_tui.Maps.{bytes_beq}

-- `mentions_list.iter().any(|m| m == my_nickname)`
unfoldable pub any_is : Text → List Text → Bool
any_is my_nickname [] = false
any_is my_nickname (m ∷ ms) = bytes_beq m my_nickname || any_is my_nickname ms

unfoldable pub should_send_ack : Bool → Option Text → Option (List Text) → Text → ℕ → Bool
should_send_ack true channel mentions my_nickname active_peer_count = true
should_send_ack false none mentions my_nickname active_peer_count = false
should_send_ack false (some channel) mentions my_nickname active_peer_count =
    if ltb active_peer_count 10
    then true
    else elim mentions [ some mentions_list ↦ any_is my_nickname mentions_list | none ↦ false ]
