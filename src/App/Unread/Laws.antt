-- ===== src/App/Unread/Laws.antt =====
-- What reading and new messages do to the unread counts.
use bitchat_tui.Base.{
  ℕ, suc, ◌+◌, ◌%◌, ◌^◌, ◌<◌, ◌≡◌, ◌∙◌, refl, arith, [], ◌∷◌, List, Bool, false, if◌then◌else◌,
  ◌||◌, ◌&&◌, not, Option, none, some, Option-cases, inl, inr, true, ◌↔◌, ◌⊎◌, Bool-cases, ap,
  subst,
}
use bitchat_tui.Text.{Text}
use bitchat_tui.Maps.{bytes_eq, bytes_beq, bytes_beq_iff, lookup, insert, remove}
use bitchat_tui.Maps.Laws.{lookup-insert}
use bitchat_tui.Maps.Entries.{OneEach, lookup-remove_self, lookup-remove_ne}
use bitchat_tui.App.{
  App, get_current_messages, selected_thread, current_people_are_geohash, get_selected_channel_name,
  visible_person_at, visible_people, geohash_dm_thread_key, resolve_geohash_target_pubkey,
  geohash_person_pubkey,
}
use bitchat_tui.App.Unread.People.{person_of, is_same_thread_iff}
use bitchat_tui.App.Unread.{
  get_unread_count, current_key, is_same_thread, drop_same_threads,
  mark_current_conversation_as_read, add_unread_message,
}

abbrev pub count_of : Text → List Text → ℕ
count_of key [] = 0
count_of key (k ∷ keys) = if bytes_beq k key then suc (count_of key keys) else count_of key keys

module _ (normalize : Text → Option Text) where
  -- Messages come for the conversations with these keys.
  abbrev pub add_all : List Text → App → App
  add_all [] app = app
  add_all (k ∷ keys) app = add_all keys (add_unread_message normalize k app)

  -- The selection does not depend on the counts.
  key_same :
      (app : App) (counts : List (Text × ℕ))
      → current_key normalize (record app { unread_counts = counts }) ≡ current_key normalize app
  unfolding current_key get_current_messages selected_thread current_people_are_geohash
      get_selected_channel_name visible_person_at visible_people geohash_dm_thread_key
      resolve_geohash_target_pubkey geohash_person_pubkey
  key_same app counts = refl

  add_current :
      (k : Text) (app : App)
      → current_key normalize (add_unread_message normalize k app) ≡ current_key normalize app
  unfolding add_unread_message
  add_current k app =
      ground
        (arith, key_same app (insert k ((get_unread_count k app + 1) % 2 ^ 64) app.unread_counts))

  add_one :
      (k key current : Text) (app : App)
      → current_key normalize app ≡ some current
      → get_unread_count key app + (if bytes_beq k key then 1 else 0) < 2 ^ 64
      → get_unread_count key (add_unread_message normalize k app) ≡ (
          if bytes_beq k key && not (bytes_beq current key)
          then suc (get_unread_count key app)
          else get_unread_count key app)
  unfolding add_unread_message get_unread_count
  add_one k key current app there small = ground (
    arith,
    lookup-insert k key ((get_unread_count k app + 1) % 2 ^ 64) app.unread_counts,
    bytes_beq_iff k key,
    bytes_beq_iff current k,
    bytes_beq_iff current key,
  )

  -- Messages that come, in any order, for any conversations: the current conversation's count
  -- stays, and every other count grows by the messages that came for it, as long as it stays below
  -- 2^64.
  pub add_all_lem :
      (keys : List Text) (key current : Text) (app : App)
      → current_key normalize app ≡ some current
      → get_unread_count key app + count_of key keys < 2 ^ 64
      → get_unread_count key (add_all keys app) ≡ (
          if bytes_beq current key
          then get_unread_count key app
          else get_unread_count key app + count_of key keys)
  add_all_lem [] key current app there small = ground arith
  add_all_lem (k ∷ keys) key current app there small =
      let app' = add_unread_message normalize k app in
      let one = add_one k key current app there (ground (arith, small)) in
      let there' = add_current k app ∙ there in
      ground (arith, one, add_all_lem keys key current app' there')

  lookup-drop :
      (app : App) (target key : Text) (counts : List (Text × ℕ))
      → lookup key (drop_same_threads normalize app target counts)
        ≡ (if is_same_thread normalize app target key then none else lookup key counts)
  unfolding drop_same_threads lookup
  lookup-drop app target key [] = ground arith
  lookup-drop app target key ((j, count) ∷ counts) =
      ground (arith, bytes_beq_iff j key, lookup-drop app target key counts)

  -- The key of the current conversation, or of a direct message with the same person.
  abbrev is_read : App → Text → Text → Bool
  is_read app current key = bytes_beq current key || (elim (get_current_messages normalize app).1 [
    | some target ↦ is_same_thread normalize app target key
    | none ↦ false
  ])

  -- The count after reading, by the test of the code.
  read_test :
      (app : App) (current key : Text)
      → OneEach app.unread_counts
      → current_key normalize app ≡ some current
      → get_unread_count key (mark_current_conversation_as_read normalize app)
        ≡ (if is_read app current key then 0 else get_unread_count key app)
  unfolding mark_current_conversation_as_read get_unread_count
  read_test app current key one there =
      let counts = remove current app.unread_counts in
      let gone = lookup-remove_self current app.unread_counts one in
      let kept = lookup-remove_ne current key app.unread_counts in
      elim (Option-cases (get_current_messages normalize app).1) [
        | inr channel ↦ ground (arith, there, channel, bytes_beq_iff current key, gone, kept)
        | inl (target, person) ↦ ground (
          arith,
          there,
          person,
          bytes_beq_iff current key,
          gone,
          kept,
          lookup-drop app target key counts,
        )
      ]

  -- What is read with the conversation of the key `current`: that key, and while a direct message is
  -- shown every key "dm:<other>" whose target means the same person.
  abbrev pub IsRead : App → Text → Text → Type 0
  IsRead app current key =
      (current ≡ key)
      ⊎ ((target : Text) × (other : Text) × ((get_current_messages normalize app).1 ≡ some target)
          × (key ≡ b'd' ∷ b'm' ∷ b':' ∷ other)
          × (person_of normalize app target ≡ person_of normalize app other))

  is_read_iff :
      (app : App) (current key : Text) → (is_read app current key ≡ true) ↔ IsRead app current key
  is_read_iff app current key =
      let same = bytes_beq_iff current key in
      elim (Option-cases (get_current_messages normalize app).1) [
        | inr channel ↦
            (λ h. inl (ground (arith, h, channel, same)), λ h. ground (arith, h, channel, same))
        | inl (target, shown) ↦
            let thread = is_same_thread_iff normalize app target key in
            (
              λ h. elim (Bool-cases (bytes_beq current key)) [
                | inl e ↦ inl (same.0 e)
                | inr e ↦
                    let (other, shape, meant) = thread.0 (ground (arith, shown, h, e)) in
                    inr (target, other, shown, shape, meant)
              ],
              λ h. elim h [
                | inl e ↦ ground (arith, same.1 e)
                | inr (t, other, now, shape, meant) ↦
                    let t_same : t ≡ target = ground (arith, now, shown) in
                    let meant' : person_of normalize app target ≡ person_of normalize app other =
                      subst (λ x. person_of normalize app x ≡ person_of normalize app other) t_same
                        meant in
                    ground (arith, shown, thread.1 (other, shape, meant'))
              ],
            )
      ]

  -- To read the current conversation sets its count to nothing, and while a direct message is shown
  -- also that of every key "dm:<other>" whose target means the same person; all other counts stay.
  -- A person is a nickname of the mesh, in lower case and without white space round it and @ in
  -- front, or a geohash channel with the public key that is known for the name. The counts have one
  -- entry for a key.
  pub mark_read_lem :
      (app : App) (current key : Text)
      → OneEach app.unread_counts
      → current_key normalize app ≡ some current
      → (IsRead app current key
          × (get_unread_count key (mark_current_conversation_as_read normalize app) ≡ 0))
        ⊎ (¬ IsRead app current key
            × (get_unread_count key (mark_current_conversation_as_read normalize app)
                ≡ get_unread_count key app))
  mark_read_lem app current key one there =
      let after = read_test app current key one there in
      let meant = is_read_iff app current key in
      elim (Bool-cases (is_read app current key)) [
        | inl e ↦ inl (meant.0 e, after ∙ ap (λ b. if b then 0 else get_unread_count key app) e)
        | inr e ↦ inr (
          λ h. absurd (ground (arith, meant.1 h, e)),
          after ∙ ap (λ b. if b then 0 else get_unread_count key app) e,
        )
      ]
