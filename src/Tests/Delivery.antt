-- ===== src/Tests/Delivery.antt =====
-- Acknowledgements: runs of the tracker.
use bitchat_tui.Base.{◌≡◌, refl, [], ◌∷◌, List, true, false, some}
use bitchat_tui.Text.{Text}
use bitchat_tui.Maps.{bytes_beq, lookup, insert, remove, contains_key}
use bitchat_tui.Delivery.{should_send_ack, any_is}
use bitchat_tui.Delivery.Tracker.{new, track_message, mark_delivered}
use bitchat_tui.Delivery.Tracker.Laws.{acks_for, once, acks_for_lem}
use bitchat_tui.Tests.Values.{alice, bob, greeting}

-- In a channel with ten peers only a mention is acknowledged.
mentioned : should_send_ack false (some greeting) (some (alice ∷ bob ∷ [])) bob 10 ≡ true
unfolding should_send_ack any_is bytes_beq
mentioned = refl

not_mentioned : should_send_ack false (some greeting) (some (alice ∷ [])) bob 10 ≡ false
unfolding should_send_ack any_is bytes_beq
not_mentioned = refl

-- The second confirmation of a message is for no pending message.
delivered_once :
    (mark_delivered alice (mark_delivered alice (track_message alice greeting true 5 new)).0).1
    ≡ false
unfolding mark_delivered track_message contains_key lookup insert remove bytes_beq
delivered_once = refl

abbrev asked : List Text
asked = alice ∷ bob ∷ alice ∷ []

acks_for_lem_example : acks_for alice asked new ≡ once alice asked
unfolding lookup
acks_for_lem_example = acks_for_lem alice asked new refl
