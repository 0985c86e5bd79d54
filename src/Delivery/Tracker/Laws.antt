-- ===== src/Delivery/Tracker/Laws.antt =====
-- What the acknowledgement rules promise over whole runs.
use bitchat_tui.Base.{ℕ, suc, ◌≡◌, refl, arith, [], ◌∷◌, if◌then◌else◌, none, some, List}
use bitchat_tui.Text.{Text}
use bitchat_tui.Maps.{bytes_beq, bytes_beq_iff, bytes_eq, lookup, contains_key}
use bitchat_tui.Maps.Laws.{lookup-insert}
use bitchat_tui.Delivery.Tracker.{DeliveryTracker, should_send_ack}

-- How often `should_send_ack` says yes to `id` in a run of acknowledgements.
unfoldable pub acks_for : Text → List Text → DeliveryTracker → ℕ
acks_for id [] s = 0
acks_for id (ack_id ∷ rest) s =
    let count = acks_for id rest (should_send_ack ack_id s).0 in
    if bytes_beq ack_id id
    then (if (should_send_ack ack_id s).1 then suc count else count)
    else count

-- How often an id is in a list, at most once.
unfoldable pub once : Text → List Text → ℕ
once id [] = 0
once id (ack_id ∷ rest) = if bytes_beq ack_id id then 1 else once id rest

acks_for_sent :
    (id : Text) (run : List Text) (s : DeliveryTracker)
    → lookup id s.sent_acks ≡ some tt
    → acks_for id run s ≡ 0
unfolding acks_for should_send_ack contains_key
acks_for_sent id [] s h = refl
acks_for_sent id (ack_id ∷ rest) s h = ground (
  arith,
  bytes_beq_iff ack_id id,
  lookup-insert ack_id id tt s.sent_acks,
  acks_for_sent id rest (should_send_ack ack_id s).0,
)

-- Whatever acknowledgements are asked for, in whatever order and however often, one that was not
-- sent yet is sent exactly once if it is asked for at all, and never otherwise.
pub acks_for_lem :
    (id : Text) (run : List Text) (s : DeliveryTracker)
    → lookup id s.sent_acks ≡ none
    → acks_for id run s ≡ once id run
unfolding acks_for once should_send_ack contains_key
acks_for_lem id [] s h = refl
acks_for_lem id (ack_id ∷ rest) s h = ground (
  arith,
  bytes_beq_iff ack_id id,
  lookup-insert ack_id id tt s.sent_acks,
  acks_for_lem id rest (should_send_ack ack_id s).0,
  acks_for_sent id rest (should_send_ack ack_id s).0,
)
