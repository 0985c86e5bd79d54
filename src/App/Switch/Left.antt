-- ===== src/App/Switch/Left.antt =====
-- The fields of the application after `leave_geohash_channel` of src/tui/app.rs, and what it is to
-- be rid of a channel and to keep another.
use bitchat_tui.Base.{◌≡◌, arith, Option, none, length}
use bitchat_tui.Text.{Text}
use bitchat_tui.Maps.{bytes_eq, lookup, insert, remove}
use bitchat_tui.Maps.Entries.{OneEach}
use bitchat_tui.App.{
  App, public_channel, entries_of, get_selected_channel_name, selected_thread, dm_key,
  update_current_conversation, get_current_messages, scroll_to_bottom_current_conversation,
  geohash_dm_key,
}
use bitchat_tui.App.Messages.{current_conversation_key}
use bitchat_tui.App.Unread.{current_key, mark_current_conversation_as_read}
use bitchat_tui.App.Switch.{
  position, is_there, update_sidebar_flat_selection, show_selection, retain_other, retain_keys,
  is_dm_of, is_tied_to, select_public, switch_to_public, leave_geohash_channel,
}

-- The maps have one entry for a key.
pub record HasOneEach (app : App) : Type 0 where
  pub people : OneEach app.geohash_people
  pub pubkeys : OneEach app.geohash_people_pubkeys
  pub dm_senders : OneEach app.geohash_last_dm_sender
  pub mention_senders : OneEach app.geohash_last_mention_sender
  pub presences : OneEach app.geohash_presence
  pub messages : OneEach app.channel_messages

-- Nothing is there of a channel: not in the list, no people, keys, senders and presence, no messages
-- and no direct messages with anybody of it, nothing unread and nothing about what has been read.
pub record IsWithout (app : App) (channel : Text) : Type 0 where
  pub channels : position channel app.channels ≡ none
  pub people : lookup channel app.geohash_people ≡ none
  pub pubkeys : lookup channel app.geohash_people_pubkeys ≡ none
  pub dm_senders : lookup channel app.geohash_last_dm_sender ≡ none
  pub mention_senders : lookup channel app.geohash_last_mention_sender ≡ none
  pub presences : lookup channel app.geohash_presence ≡ none
  pub messages : lookup channel app.channel_messages ≡ none
  pub dm_messages : (target : Text) → lookup (geohash_dm_key channel target) app.dm_messages ≡ none
  pub unread : lookup channel app.unread_counts ≡ none
  pub dm_unread :
      (target : Text) → lookup (dm_key (geohash_dm_key channel target)) app.unread_counts ≡ none
  pub last_read : lookup channel app.last_read_messages ≡ none
  pub dm_last_read :
      (target : Text)
      → lookup (dm_key (geohash_dm_key channel target)) app.last_read_messages ≡ none

-- Another channel is in the list or not as before, with its messages, direct messages and counts.
pub record IsKept (app app' : App) (other : Text) : Type 0 where
  pub channels : is_there (position other app'.channels) ≡ is_there (position other app.channels)
  pub messages : lookup other app'.channel_messages ≡ lookup other app.channel_messages
  pub dm_messages :
      (target : Text)
      → lookup (geohash_dm_key other target) app'.dm_messages
        ≡ lookup (geohash_dm_key other target) app.dm_messages
  pub unread : lookup other app'.unread_counts ≡ lookup other app.unread_counts
  pub dm_unread :
      (target : Text)
      → lookup (dm_key (geohash_dm_key other target)) app'.unread_counts
        ≡ lookup (dm_key (geohash_dm_key other target)) app.unread_counts

module _ (normalize : Text → Option Text) (app : App) (channel : Text) where
  -- The fields after the switch to the public channel.
  pub record IsLeft (app' : App) : Type 0 where
    pub shown : current_conversation_key app' ≡ public_channel
    pub channels : app'.channels ≡ retain_other channel app.channels
    pub people : app'.geohash_people ≡ remove channel app.geohash_people
    pub pubkeys : app'.geohash_people_pubkeys ≡ remove channel app.geohash_people_pubkeys
    pub dm_senders : app'.geohash_last_dm_sender ≡ remove channel app.geohash_last_dm_sender
    pub mention_senders :
        app'.geohash_last_mention_sender ≡ remove channel app.geohash_last_mention_sender
    pub presences : app'.geohash_presence ≡ remove channel app.geohash_presence
    pub messages : app'.channel_messages ≡ remove channel app.channel_messages
    pub dm_messages : app'.dm_messages ≡ retain_keys (is_dm_of channel) app.dm_messages
    pub unread :
        app'.unread_counts
        ≡ remove public_channel (retain_keys (is_tied_to channel) app.unread_counts)
    pub last_read :
        app'.last_read_messages
        ≡ insert public_channel
            (length (entries_of public_channel (remove channel app.channel_messages)))
            (retain_keys (is_tied_to channel) app.last_read_messages)

  pub left_lem : IsLeft (leave_geohash_channel normalize channel app)
  unfolding leave_geohash_channel switch_to_public select_public show_selection
      update_sidebar_flat_selection update_current_conversation mark_current_conversation_as_read
      scroll_to_bottom_current_conversation current_key get_current_messages selected_thread
      get_selected_channel_name current_conversation_key
  left_lem = record {
    shown = ground arith;
    channels = ground arith;
    people = ground arith;
    pubkeys = ground arith;
    dm_senders = ground arith;
    mention_senders = ground arith;
    presences = ground arith;
    messages = ground arith;
    dm_messages = ground arith;
    unread = ground arith;
    last_read = ground arith;
  }
