-- ===== src/App/Messages.antt =====
-- The messages of src/tui/app.rs: what is written, where, and with which status. The clock is an
-- argument, as the time of day in text and in seconds.
use bitchat_tui.Base.{
  ℕ, ◌+◌, ◌-◌, ◌^◌, [], ◌∷◌, ◌++◌, List, Bool, true, false, if◌then◌else◌, ◌==◌, min, max, Option,
  none, some, length,
}
use bitchat_tui.Text.{Text}
use bitchat_tui.Maps.{bytes_eq, bytes_beq, lookup, insert}
use bitchat_tui.App.{
  App, Message, MessageStatus, no_status, sending, delivered, read_status, failed_status,
  entries_of, get_selected_channel_name, get_current_messages,
  scroll_to_bottom_current_conversation, dm_key,
}

-- The time of a message: "%H:%M", and the seconds.
pub record Stamp : Type 0 where
  pub clock : Text
  pub epoch : ℕ

unfoldable pub own_message : Stamp → App → Text → MessageStatus → Option Text → Message
own_message stamp app content status local_id = record {
  sender = app.nickname;
  sender_pubkey = none;
  timestamp = stamp.clock;
  timestamp_epoch = some stamp.epoch;
  content = content;
  is_self = true;
  status = status;
  local_id = local_id;
}

-- `entry(key).or_default().push(msg)`
unfoldable pub push_message :
    Text → Message → List (Text × List Message) → List (Text × List Message)
push_message key msg m = insert key (entries_of key m ++ (msg ∷ [])) m

unfoldable pub is_viewing_bottom : App → Bool
is_viewing_bottom app = app.msg_scroll == 0

unfoldable pub note_user_scrolled : App → App
note_user_scrolled app =
    if is_viewing_bottom app
    then record app { unseen_divider_message_index = none; unseen_divider_line_index = none }
    else app

-- `saturating_add` of two `usize`
unfoldable pub saturating_add : ℕ → ℕ → ℕ
saturating_add a b = min (a + b) (2 ^ 64 - 1)

unfoldable pub jump_to_unseen_or_bottom : App → App
jump_to_unseen_or_bottom app = elim app.unseen_divider_line_index [
  | none ↦ scroll_to_bottom_current_conversation app
  | some line_idx ↦ record app {
    msg_scroll =
        app.message_rendered_line_count
        - saturating_add line_idx (max app.message_viewport_height 1);
    unseen_divider_message_index = none;
    unseen_divider_line_index = none;
  }
]

-- The target of the current conversation, or else its channel.
abbrev pub conv_of : App → Option Text × Option Text
conv_of app = elim app.current_conv [ some conv ↦ conv | none ↦ (none, none) ]

unfoldable pub current_conversation_key : App → Text
current_conversation_key app = elim (conv_of app).0 [
  | some target ↦ dm_key target
  | none ↦ elim (conv_of app).1 [ some channel ↦ channel | none ↦ get_selected_channel_name app ]
]

unfoldable pub should_apply_dm_status : MessageStatus → MessageStatus → Bool
should_apply_dm_status read_status read_status = true
should_apply_dm_status read_status _ = false
should_apply_dm_status delivered delivered = true
should_apply_dm_status delivered read_status = true
should_apply_dm_status delivered _ = false
should_apply_dm_status failed_status failed_status = true
should_apply_dm_status failed_status delivered = true
should_apply_dm_status failed_status read_status = true
should_apply_dm_status failed_status _ = false
should_apply_dm_status no_status sending = false
should_apply_dm_status no_status _ = true
should_apply_dm_status sending _ = true

-- `local_id.as_deref() == Some(local_id)`
unfoldable pub has_local_id : Text → Message → Bool
has_local_id local_id message = elim message.local_id [
  | some id ↦ bytes_beq id local_id
  | none ↦ false
]

unfoldable pub apply_status : MessageStatus → Message → Message
apply_status next message =
    if should_apply_dm_status message.status next then record message { status = next } else message

-- The first message with the id, if there is one.
unfoldable pub update_first : Text → MessageStatus → List Message → Option (List Message)
update_first local_id next [] = none
update_first local_id next (message ∷ messages) =
    let rest = update_first local_id next messages in
    if has_local_id local_id message
    then some (apply_status next message ∷ messages)
    else elim rest [ none ↦ none | some messages' ↦ some (message ∷ messages') ]

-- The source goes through the conversations in no order; here it is the order of the list.
unfoldable pub update_threads :
    Text → MessageStatus → List (Text × List Message) → List (Text × List Message) × Bool
update_threads local_id next [] = ([], false)
update_threads local_id next ((key, messages) ∷ threads) =
    let (threads', found) = update_threads local_id next threads in
    elim (update_first local_id next messages) [
      | some messages' ↦ ((key, messages') ∷ threads, true)
      | none ↦ ((key, messages) ∷ threads', found)
    ]

unfoldable pub update_dm_message_status : Text → MessageStatus → App → App × Bool
update_dm_message_status local_id next app =
    let (threads, found) = update_threads local_id next app.dm_messages in
    (record app { dm_messages = threads }, found)

unfoldable pub clear_thread : Text → List (Text × List Message) → List (Text × List Message)
clear_thread key m = elim (lookup key m) [ some _ ↦ insert key [] m | none ↦ m ]

unfoldable pub clear_current_conversation : App → App
clear_current_conversation app = scroll_to_bottom_current_conversation (elim (conv_of app).0 [
  | some target ↦ record app { dm_messages = clear_thread target app.dm_messages }
  | none ↦ elim (conv_of app).1 [
    | some channel ↦ record app { channel_messages = clear_thread channel app.channel_messages }
    | none ↦ record app {
      channel_messages = clear_thread (get_selected_channel_name app) app.channel_messages;
    }
  ]
])

module _ (normalize_dm_pubkey : Text → Option Text) where
  unfoldable pub follow_or_mark_new_message : App → App
  follow_or_mark_new_message app =
      if is_viewing_bottom app
      then scroll_to_bottom_current_conversation app
      else elim app.unseen_divider_message_index [
        | some _ ↦ app
        | none ↦
            let messages = (get_current_messages normalize_dm_pubkey app).0 in
            record app {
              unseen_divider_message_index = some (length messages - 1);
              unseen_divider_line_index = none;
            }
      ]

  unfoldable pub add_sent_message : Stamp → Text → App → App
  add_sent_message stamp text app =
      let msg = own_message stamp app text no_status none in
      follow_or_mark_new_message (elim (conv_of app).0 [
        | some target ↦ record app { dm_messages = push_message target msg app.dm_messages }
        | none ↦ elim (conv_of app).1 [
          | some channel ↦ record app {
            channel_messages = push_message channel msg app.channel_messages;
          }
          | none ↦ app
        ]
      ])

  unfoldable pub add_pending_geohash_dm_message : Stamp → Text → Text → App → App
  add_pending_geohash_dm_message stamp text local_id app =
      let msg = own_message stamp app text sending (some local_id) in
      follow_or_mark_new_message (elim (conv_of app).0 [
        | some target ↦ record app { dm_messages = push_message target msg app.dm_messages }
        | none ↦ app
      ])

  unfoldable pub add_pending_mesh_dm_message : Stamp → Text → Text → Text → App → App
  add_pending_mesh_dm_message stamp target text local_id app =
      let msg = own_message stamp app text sending (some local_id) in
      follow_or_mark_new_message
        (record app { dm_messages = push_message target msg app.dm_messages })

  unfoldable pub add_dm_message : Stamp → Text → Text → App → App
  add_dm_message stamp target_nickname content app =
      let msg = own_message stamp app content no_status none in
      follow_or_mark_new_message
        (record app { dm_messages = push_message target_nickname msg app.dm_messages })
