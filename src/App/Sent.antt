-- ===== src/App/Sent.antt =====
-- Where a message that is written goes.
use bitchat_tui.Base.{
  ◌≡◌, ◌∙◌, refl, ap, arith, [], ◌∷◌, ◌++◌, List, Option, none, Option-cases, Bool-cases, inl, inr,
}
use bitchat_tui.Text.{Text}
use bitchat_tui.Maps.{bytes_eq}
use bitchat_tui.Maps.Laws.{lookup-insert_self}
use bitchat_tui.App.{
  App, Message, no_status, entries_of, get_selected_channel_name, selected_thread,
  current_people_are_geohash, update_current_conversation, get_current_messages,
  scroll_to_bottom_current_conversation, visible_person_at, visible_people, geohash_dm_thread_key,
  resolve_geohash_target_pubkey, geohash_person_pubkey,
}
use bitchat_tui.App.Messages.{
  Stamp, own_message, push_message, is_viewing_bottom, follow_or_mark_new_message, add_sent_message,
}

entries-push :
    (key : Text) (msg : Message) (m : List (Text × List Message))
    → entries_of key (push_message key msg m) ≡ entries_of key m ++ (msg ∷ [])
unfolding push_message
entries-push key msg m = ground (arith, lookup-insert_self key (entries_of key m ++ (msg ∷ [])) m)

module _ (normalize : Text → Option Text) where
  -- The messages shown depend on the messages and the selection.
  abbrev shown : App → List Message
  shown app = (get_current_messages normalize app).0

  follow-shown : (app : App) → shown (follow_or_mark_new_message normalize app) ≡ shown app
  unfolding follow_or_mark_new_message scroll_to_bottom_current_conversation get_current_messages
      selected_thread current_people_are_geohash get_selected_channel_name visible_person_at
      visible_people geohash_dm_thread_key resolve_geohash_target_pubkey geohash_person_pubkey
  follow-shown app = elim (Bool-cases (is_viewing_bottom app)) [
    | inl bottom ↦ rw (follow_or_mark_new_message, bottom) refl
    | inr above ↦ elim (Option-cases app.unseen_divider_message_index) [
      | inl (marked, there) ↦ rw (follow_or_mark_new_message, above, there) refl
      | inr unmarked ↦ rw (follow_or_mark_new_message, above, unmarked) refl
    ]
  ]

  dm_same :
      (app : App) (dms : List (Text × List Message))
      → selected_thread normalize (record app { dm_messages = dms }) ≡ selected_thread normalize app
  unfolding selected_thread current_people_are_geohash get_selected_channel_name visible_person_at
      visible_people geohash_dm_thread_key resolve_geohash_target_pubkey geohash_person_pubkey
  dm_same app dms = refl

  channel_same :
      (app : App) (messages : List (Text × List Message))
      → selected_thread normalize (record app { channel_messages = messages })
        ≡ selected_thread normalize app
  unfolding selected_thread current_people_are_geohash get_selected_channel_name visible_person_at
      visible_people geohash_dm_thread_key resolve_geohash_target_pubkey geohash_person_pubkey
  channel_same app messages = refl

  -- While the current conversation is the one that the selection means, a message that is sent is
  -- the last of the messages shown, behind those that were shown before, also where the user has
  -- scrolled up.
  pub add_sent_message_lem :
      (stamp : Stamp) (text : Text) (app : App)
      → app.current_conv ≡ (update_current_conversation normalize app).current_conv
      → (get_current_messages normalize (add_sent_message normalize stamp text app)).0
        ≡ (get_current_messages normalize app).0 ++ (own_message stamp app text no_status none ∷ [])
  unfolding add_sent_message update_current_conversation get_current_messages
      get_selected_channel_name
  add_sent_message_lem stamp text app in_step =
      let msg = own_message stamp app text no_status none in
      elim (Option-cases (selected_thread normalize app)) [
        | inl (target, there) ↦
            let app' = record app { dm_messages = push_message target msg app.dm_messages } in
            let sent : add_sent_message normalize stamp text app
                ≡ follow_or_mark_new_message normalize app' =
              ground (arith, in_step, there) in
            ap shown sent
            ∙ follow-shown app'
            ∙ ground (
              arith,
              there,
              dm_same app (push_message target msg app.dm_messages),
              entries-push target msg app.dm_messages,
            )
        | inr nobody ↦
            let ch = get_selected_channel_name app in
            let app' = record app { channel_messages = push_message ch msg app.channel_messages } in
            let sent : add_sent_message normalize stamp text app
                ≡ follow_or_mark_new_message normalize app' =
              ground (arith, in_step, nobody) in
            ap shown sent
            ∙ follow-shown app'
            ∙ ground (
              arith,
              nobody,
              channel_same app (push_message ch msg app.channel_messages),
              entries-push ch msg app.channel_messages,
            )
      ]
