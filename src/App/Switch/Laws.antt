-- ===== src/App/Switch/Laws.antt =====
-- What is shown after a switch.
use bitchat_tui.Base.{ℕ, zero, suc, ◌≡◌, arith, [], ◌∷◌, List, Option, none, some, get_elem?}
use bitchat_tui.Text.{Text}
use bitchat_tui.Maps.{bytes_eq, bytes_beq_iff}
use bitchat_tui.Maps.Entries.{OneEach, lookup-remove_self}
use bitchat_tui.App.{
  App, entries_of, get_selected_channel_name, selected_thread, update_current_conversation,
  get_current_messages, scroll_to_bottom_current_conversation,
}
use bitchat_tui.App.Messages.{current_conversation_key}
use bitchat_tui.App.Unread.{current_key, get_unread_count, mark_current_conversation_as_read}
use bitchat_tui.App.Switch.{
  position, update_sidebar_flat_selection, show_selection, switch_to_channel,
}

get-position :
    (name : Text) (cs : List Text) (i : ℕ) → position name cs ≡ some i → get_elem? cs i ≡ some name
unfolding position
get-position name [] i h = absurd (ground (arith, h))
get-position name (c ∷ cs) zero h = ground (arith, h, bytes_beq_iff c name)
get-position name (c ∷ cs) (suc i) h = ground (arith, h, get-position name cs i)

module _ (normalize : Text → Option Text) where
  -- A switch to a channel of the list shows it: the current conversation is the channel, its messages
  -- are shown from the bottom, nothing of it is unread, and the backend is told. The unread counts
  -- have one entry for a key.
  pub switch_to_channel_lem :
      (app : App) (channel : Text) (i : ℕ)
      → position channel app.channels ≡ some i
      → OneEach app.unread_counts
      → let app' = switch_to_channel normalize channel app in
        (app'.current_conv ≡ some (none, some channel))
        × (current_conversation_key app' ≡ channel)
        × (get_current_messages normalize app'
            ≡ (entries_of channel app.channel_messages, none, some channel))
        × (get_unread_count channel app' ≡ 0)
        × (app'.msg_scroll ≡ 0)
        × (app'.pending_channel_switch ≡ some channel)
  unfolding switch_to_channel show_selection update_sidebar_flat_selection
      update_current_conversation mark_current_conversation_as_read
      scroll_to_bottom_current_conversation current_key get_current_messages selected_thread
      get_selected_channel_name current_conversation_key get_unread_count
  switch_to_channel_lem app channel i there one =
      let shown = get-position channel app.channels i there in
      (
        ground (arith, shown, there),
        ground (arith, shown, there),
        ground (arith, shown, there),
        ground (arith, shown, there, lookup-remove_self channel app.unread_counts one),
        ground (arith, shown, there),
        ground (arith, shown, there),
      )
