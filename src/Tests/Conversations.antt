-- ===== src/Tests/Conversations.antt =====
-- Conversations: statuses, unread counts, switches.
use bitchat_tui.Base.{
  ◌+◌, ◌≡◌, ◌⊎◌, refl, arith, [], ◌∷◌, ◌++◌, List, true, false, if◌then◌else◌, Option, none, some,
}
use bitchat_tui.Text.{Text}
use bitchat_tui.Text.Trim.{
  strip_white, trim_start_loop, trim_start, trim_end, is_empty, trim, trim_start_matches,
  to_ascii_lowercase,
}
use bitchat_tui.Maps.{bytes_eq, bytes_beq, lookup}
use bitchat_tui.App.{
  App, Message, MessageStatus, no_status, sending, delivered, update_current_conversation,
  read_status, public_channel, entries_of, in_geohash_alphabet, all_in_alphabet, normalize_geohash,
  is_geohash_channel, get_selected_channel_name, selected_thread, get_current_messages,
  current_people_are_geohash, dm_key,
}
use bitchat_tui.App.Sent.{add_sent_message_lem}
use bitchat_tui.App.Messages.{Stamp, own_message, add_sent_message, current_conversation_key}
use bitchat_tui.App.Status.{message_at, IsRaised, update_all, update_all-IsRaised}
use bitchat_tui.App.Unread.{current_key, get_unread_count, mark_current_conversation_as_read}
use bitchat_tui.App.Unread.Laws.{count_of, add_all, add_all_lem, IsRead, mark_read_lem}
use bitchat_tui.App.Switch.{position, switch_to_channel}
use bitchat_tui.App.Switch.Laws.{switch_to_channel_lem}
use bitchat_tui.Tests.Values.{greeting}

-- "#ws", a channel of a geohash
abbrev ws : Text
ws = b'#' ∷ b'w' ∷ b's' ∷ []

abbrev bob : Text
bob = b'b' ∷ b'o' ∷ b'b' ∷ []

abbrev id_1 : Text
id_1 = b'1' ∷ []

ws_geohash : is_geohash_channel ws ≡ true
unfolding is_geohash_channel normalize_geohash trim trim_start trim_start_loop trim_end is_empty
    strip_white trim_start_matches to_ascii_lowercase all_in_alphabet in_geohash_alphabet
ws_geohash = refl

public_no_geohash : is_geohash_channel public_channel ≡ false
unfolding is_geohash_channel normalize_geohash trim trim_start trim_start_loop trim_end is_empty
    strip_white trim_start_matches to_ascii_lowercase all_in_alphabet in_geohash_alphabet
public_no_geohash = refl

abbrev letter : Message
letter = record {
  sender = bob;
  sender_pubkey = none;
  timestamp = [];
  timestamp_epoch = none;
  content = greeting;
  is_self = true;
  status = sending;
  local_id = some id_1;
}

-- The public channel is selected, and one message of bob is unread.
abbrev app : App
app = record {
  sidebar_flat_selected = 0;
  msg_scroll = 3;
  message_viewport_height = 5;
  message_rendered_line_count = 20;
  unseen_divider_message_index = none;
  unseen_divider_line_index = none;
  nickname = bob;
  channels = ws ∷ [];
  people = bob ∷ [];
  geohash_people = [];
  geohash_people_pubkeys = [];
  geohash_last_dm_sender = [];
  geohash_last_mention_sender = [];
  geohash_presence = [];
  blocked = [];
  verified_identities = [];
  channel_messages = (ws, letter ∷ []) ∷ [];
  dm_messages = (bob, letter ∷ []) ∷ [];
  sidebar_state = record {
    expanded = true ∷ true ∷ true ∷ true ∷ true ∷ [];
    public_selected = some true;
    channel_selected = none;
    people_selected = none;
    blocked_selected = none;
  };
  current_conv = none;
  pending_channel_switch = none;
  pending_dm_switch = none;
  unread_counts = (ws, 1) ∷ [];
  last_read_messages = [];
}

-- No text is a key of nostr.
abbrev no_key : Text → Option Text
no_key text = none

public_current : current_key no_key app ≡ some public_channel
unfolding current_key get_current_messages selected_thread get_selected_channel_name
public_current = refl

abbrev reports : List (Text × MessageStatus)
reports = (id_1, read_status) ∷ (id_1, delivered) ∷ []

update_all-IsRaised_example :
    (b : Message) × (message_at bob 0 (update_all reports app).dm_messages ≡ some b)
    × IsRaised letter b
unfolding lookup bytes_beq
update_all-IsRaised_example = update_all-IsRaised reports app bob 0 letter refl

-- Two messages for the channel, and one for the conversation that is shown.
abbrev arrivals : List Text
arrivals = ws ∷ public_channel ∷ ws ∷ []

add_all_lem_example : get_unread_count ws (add_all no_key arrivals app) ≡ (
    if bytes_beq public_channel ws
    then get_unread_count ws app
    else get_unread_count ws app + count_of ws arrivals)
unfolding get_unread_count lookup bytes_beq
add_all_lem_example = add_all_lem no_key arrivals ws public_channel app public_current (omega arith)

-- The direct messages with bob are shown, and some are counted for "@BOB".
abbrev at_bob : Text
at_bob = b'd' ∷ b'm' ∷ b':' ∷ b'@' ∷ b'B' ∷ b'O' ∷ b'B' ∷ []

abbrev app_bob : App
app_bob = record app {
  sidebar_state = record app.sidebar_state { public_selected = none; people_selected = some 0 };
  unread_counts = (at_bob, 2) ∷ [];
}

bob_current : current_key no_key app_bob ≡ some (dm_key bob)
unfolding current_key get_current_messages selected_thread get_selected_channel_name
    current_people_are_geohash
bob_current = ground (arith, public_no_geohash)

mark_read_lem_example :
    (IsRead no_key app_bob (dm_key bob) at_bob
      × (get_unread_count at_bob (mark_current_conversation_as_read no_key app_bob) ≡ 0))
    ⊎ (¬ IsRead no_key app_bob (dm_key bob) at_bob
        × (get_unread_count at_bob (mark_current_conversation_as_read no_key app_bob)
            ≡ get_unread_count at_bob app_bob))
unfolding lookup
mark_read_lem_example = mark_read_lem no_key app_bob (dm_key bob) at_bob (refl, tt) bob_current

switch_to_channel_lem_example :
    ((switch_to_channel no_key ws app).current_conv ≡ some (none, some ws))
    × (current_conversation_key (switch_to_channel no_key ws app) ≡ ws)
    × (get_current_messages no_key (switch_to_channel no_key ws app)
        ≡ (entries_of ws app.channel_messages, none, some ws))
    × (get_unread_count ws (switch_to_channel no_key ws app) ≡ 0)
    × ((switch_to_channel no_key ws app).msg_scroll ≡ 0)
    × ((switch_to_channel no_key ws app).pending_channel_switch ≡ some ws)
unfolding position bytes_beq lookup
switch_to_channel_lem_example = switch_to_channel_lem no_key app ws 0 refl (refl, tt)

-- "#9q", another channel
abbrev nine_q : Text
nine_q = b'#' ∷ b'9' ∷ b'q' ∷ []

abbrev stamp : Stamp
stamp = record { clock = []; epoch = 1 }

-- The current conversation is the public channel, as the selection says.
abbrev app_public : App
app_public = record app { current_conv = some (none, some public_channel) }

add_sent_message_lem_example :
    (get_current_messages no_key (add_sent_message no_key stamp greeting app_public)).0
    ≡ (get_current_messages no_key app_public).0
      ++ (own_message stamp app_public greeting no_status none ∷ [])
unfolding update_current_conversation selected_thread get_selected_channel_name
add_sent_message_lem_example = add_sent_message_lem no_key stamp greeting app_public refl
