-- ===== src/Delivery/Tracker.antt =====
-- The `DeliveryTracker` of src/data_structures.rs. The clock is an argument.
pub mod Laws
use bitchat_tui.Base.{ℕ, [], Bool, not, List}
use bitchat_tui.Text.{Text}
use bitchat_tui.Maps.{bytes_eq, insert, remove, contains_key}

-- Message id -> content, time, whether it is private; the ids of the acknowledgements sent.
pub record DeliveryTracker : Type 0 where
  pub pending_messages : List (Text × (Text × ℕ × Bool))
  pub sent_acks : List (Text × Unit {0})

abbrev pub new : DeliveryTracker
new = record { pending_messages = []; sent_acks = [] }

unfoldable pub track_message : Text → Text → Bool → ℕ → DeliveryTracker → DeliveryTracker
track_message message_id content is_private now s = record s {
  pending_messages = insert message_id (content, now, is_private) s.pending_messages;
}

unfoldable pub mark_delivered : Text → DeliveryTracker → DeliveryTracker × Bool
mark_delivered message_id s = (
  record s { pending_messages = remove message_id s.pending_messages },
  contains_key message_id s.pending_messages,
)

-- `HashSet::insert` says whether the id is new.
unfoldable pub should_send_ack : Text → DeliveryTracker → DeliveryTracker × Bool
should_send_ack ack_id s =
    (record s { sent_acks = insert ack_id tt s.sent_acks }, not (contains_key ack_id s.sent_acks))
