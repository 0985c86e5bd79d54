-- ===== src/App/Unread.antt =====
-- The unread counts of src/tui/app.rs.
pub mod Laws
pub mod People
use bitchat_tui.Base.{
  ℕ, zero, suc, ◌+◌, ◌%◌, ◌^◌, [], ◌∷◌, ◌++◌, List, Bool, true, false, if◌then◌else◌, ◌==◌, ltb,
  not, Option, none, some, length,
}
use bitchat_tui.Text.{Text}
use bitchat_tui.Text.Trim.{trim, trim_start_matches, to_ascii_lowercase, strip_prefix}
use bitchat_tui.Maps.{bytes_eq, bytes_beq, lookup, insert, remove}
use bitchat_tui.App.{
  App, public_channel, get_selected_channel_name, current_people_are_geohash, visible_people,
  parse_geohash_dm_key, dm_key, resolve_geohash_target_pubkey, geohash_dm_thread_key,
  get_current_messages,
}

unfoldable pub normalize_mesh_dm_target : Text → Text
normalize_mesh_dm_target value = to_ascii_lowercase (trim_start_matches b'@' (trim value))

unfoldable pub get_unread_count : Text → App → ℕ
get_unread_count conversation_key app = elim (lookup conversation_key app.unread_counts) [
  | some count ↦ count
  | none ↦ 0
]

abbrev pub sum_of : {A : Type 0} → (A → ℕ) → List A → ℕ
sum_of f [] = 0
sum_of f (a ∷ more) = f a + sum_of f more

module _ (normalize_dm_pubkey : Text → Option Text) where
  unfoldable pub canonical_geohash_dm_target : App → Text → Text → Text
  canonical_geohash_dm_target app channel target =
      elim (resolve_geohash_target_pubkey normalize_dm_pubkey app channel target) [
        | some pubkey ↦ pubkey
        | none ↦ to_ascii_lowercase (trim target)
      ]

  unfoldable pub same_parsed :
      App → Text → Text → Option (Text × Text) → Option (Text × Text) → Bool
  same_parsed app left right (some (left_channel, left_target))
        (some (right_channel, right_target)) =
      if not (bytes_beq left_channel right_channel)
      then false
      else bytes_beq (canonical_geohash_dm_target app left_channel left_target)
          (canonical_geohash_dm_target app right_channel right_target)
  same_parsed app left right none none =
      bytes_beq (normalize_mesh_dm_target left) (normalize_mesh_dm_target right)
  same_parsed app left right (some _) none = false
  same_parsed app left right none (some _) = false

  unfoldable pub dm_targets_equivalent : App → Text → Text → Bool
  dm_targets_equivalent app left right =
      if bytes_beq left right
      then true
      else same_parsed app left right (parse_geohash_dm_key left) (parse_geohash_dm_key right)

  -- The key under which the current conversation is counted.
  unfoldable pub current_key : App → Option Text
  current_key app =
      let (messages, dm_target, channel_name) = get_current_messages normalize_dm_pubkey app in
      elim dm_target [ some target ↦ some (dm_key target) | none ↦ channel_name ]

  -- A key of a direct message with the same person.
  unfoldable pub is_same_thread : App → Text → Text → Bool
  is_same_thread app target key = elim (strip_prefix (b'd' ∷ b'm' ∷ b':' ∷ []) key) [
    | none ↦ false
    | some other ↦ dm_targets_equivalent app target other
  ]

  unfoldable pub drop_same_threads : App → Text → List (Text × ℕ) → List (Text × ℕ)
  drop_same_threads app target [] = []
  drop_same_threads app target ((key, count) ∷ counts) =
      let rest = drop_same_threads app target counts in
      if is_same_thread app target key then rest else (key, count) ∷ rest

  unfoldable pub mark_current_conversation_as_read : App → App
  mark_current_conversation_as_read app =
      let (messages, dm_target, channel_name) = get_current_messages normalize_dm_pubkey app in
      elim (current_key app) [
        | none ↦ app
        | some conversation_key ↦
            let counts = remove conversation_key app.unread_counts in
            record app {
              last_read_messages = insert conversation_key (length messages) app.last_read_messages;
              unread_counts = elim dm_target [
                | none ↦ counts
                | some target ↦ drop_same_threads app target counts
              ];
            }
      ]

  unfoldable pub add_unread_message : Text → App → App
  add_unread_message conversation_key app = elim (current_key app) [
    | none ↦ app
    | some current ↦ if bytes_beq current conversation_key then app else record app {
      unread_counts =
          insert conversation_key ((get_unread_count conversation_key app + 1) % 2 ^ 64)
            app.unread_counts;
    }
  ]

  unfoldable pub get_visible_person_unread_count : App → Text → ℕ
  get_visible_person_unread_count app person =
      if current_people_are_geohash app
      then get_unread_count
          (dm_key
            (geohash_dm_thread_key normalize_dm_pubkey app (get_selected_channel_name app) person))
          app
      else get_unread_count (dm_key person) app

  unfoldable pub get_section_unread_count : App → ℕ → ℕ
  get_section_unread_count app section =
      if section == 0
      then (if ltb 0 (get_unread_count public_channel app) then 1 else 0)
      else if section == 1
      then sum_of (λ ch. get_unread_count ch app) app.channels
      else if section == 2
      then sum_of (get_visible_person_unread_count app) (visible_people app)
      else 0
