-- ===== src/App/Switch.antt =====
-- Joining, leaving and choosing a conversation in src/tui/app.rs.
pub mod Laws
pub mod Keys
pub mod Left
pub mod Leave
use bitchat_tui.Base.{
  ℕ, zero, suc, ◌+◌, [], ◌∷◌, ◌++◌, List, Bool, true, false, if◌then◌else◌, ◌||◌, not, Option, none,
  some, length, get_or,
}
use bitchat_tui.Text.{Text}
use bitchat_tui.Text.Trim.{strip_prefix}
use bitchat_tui.Maps.{bytes_eq, bytes_beq, lookup, insert, remove}
use bitchat_tui.App.{
  App, Message, public_channel, flag_or, entries_of, visible_people, parse_geohash_dm_key,
  update_current_conversation, scroll_to_bottom_current_conversation,
}
use bitchat_tui.App.Unread.{mark_current_conversation_as_read}

-- `iter().position(|c| c == name)`
unfoldable pub position : Text → List Text → Option ℕ
position name [] = none
position name (c ∷ cs) =
    let later = position name cs in
    if bytes_beq c name then some 0 else elim later [ none ↦ none | some i ↦ some (suc i) ]

-- The items of a section of the sidebar, whether it holds the selection, and which item that is.
unfoldable pub section_count : App → ℕ → ℕ
section_count app zero = 1
section_count app (suc zero) = length app.channels
section_count app (suc (suc zero)) = length (visible_people app)
section_count app (suc (suc (suc zero))) = length app.blocked
section_count app (suc (suc (suc (suc zero)))) = 3 + length app.verified_identities
section_count app _ = 0

abbrev pub is_there : {A : Type 0} → Option A → Bool
is_there (some _) = true
is_there none = false

abbrev pub index_or_zero : Option ℕ → ℕ
index_or_zero (some i) = i
index_or_zero none = 0

unfoldable pub is_current_section : App → ℕ → Bool
is_current_section app zero = flag_or app.sidebar_state.public_selected
is_current_section app (suc zero) = is_there app.sidebar_state.channel_selected
is_current_section app (suc (suc zero)) = is_there app.sidebar_state.people_selected
is_current_section app _ = false

unfoldable pub item_index : App → ℕ → ℕ
item_index app (suc zero) = index_or_zero app.sidebar_state.channel_selected
item_index app (suc (suc zero)) = index_or_zero app.sidebar_state.people_selected
item_index app _ = 0

-- The rounds of the loop for the sections from `section` on: the place of the selection, if there is
-- one.
unfoldable pub flat_loop : App → ℕ → ℕ → ℕ → Option ℕ
flat_loop app zero section flat_idx = none
flat_loop app (suc sections) section flat_idx =
    let closed = flat_loop app sections (suc section) (flat_idx + 1) in
    let skipped = flat_loop app sections (suc section) (flat_idx + 1 + section_count app section) in
    if get_or app.sidebar_state.expanded section false
    then (if is_current_section app section
        then some (flat_idx + 1 + item_index app section)
        else skipped)
    else closed

unfoldable pub update_sidebar_flat_selection : App → App
update_sidebar_flat_selection app = elim (flat_loop app 5 0 0) [
  | some selected ↦ record app { sidebar_flat_selected = selected }
  | none ↦ app
]

-- `retain` of the channels that are not this one.
unfoldable pub retain_other : Text → List Text → List Text
retain_other channel [] = []
retain_other channel (c ∷ cs) =
    let rest = retain_other channel cs in if bytes_beq c channel then rest else c ∷ rest

-- A direct message of this geohash channel.
unfoldable pub is_dm_of : Text → Text → Bool
is_dm_of channel key = elim (parse_geohash_dm_key key) [
  | none ↦ false
  | some (dm_channel, target) ↦ bytes_beq dm_channel channel
]

-- The channel's own key, or the key of a direct message of it.
unfoldable pub is_tied_to : Text → Text → Bool
is_tied_to channel key =
    bytes_beq key channel || (elim (strip_prefix (b'd' ∷ b'm' ∷ b':' ∷ []) key) [
      | none ↦ false
      | some dm_target ↦ is_dm_of channel dm_target
    ])

unfoldable pub retain_keys : {A : Type 0} → (Text → Bool) → List (Text × A) → List (Text × A)
retain_keys drops [] = []
retain_keys drops ((key, entry) ∷ more) =
    let rest = retain_keys drops more in if drops key then rest else (key, entry) ∷ rest

unfoldable pub select_public : App → App
select_public app = record app {
  sidebar_state = record app.sidebar_state {
    public_selected = some true;
    channel_selected = none;
    people_selected = none;
  };
}

-- `entry(name).or_default()`
unfoldable pub with_entry : Text → App → App
with_entry channel_name app = record app {
  channel_messages =
      insert channel_name (entries_of channel_name app.channel_messages) app.channel_messages;
}

-- The channel goes to the end of the list if it is new.
unfoldable pub with_channel : Text → App → App
with_channel channel_name app = elim (position channel_name app.channels) [
  | some _ ↦ app
  | none ↦ record app { channels = app.channels ++ (channel_name ∷ []) }
]

module _ (normalize_dm_pubkey : Text → Option Text) where
  -- The three calls that follow a new selection.
  unfoldable pub show_selection : App → App
  show_selection app =
      mark_current_conversation_as_read normalize_dm_pubkey
        (update_sidebar_flat_selection (update_current_conversation normalize_dm_pubkey app))

  unfoldable pub switch_to_public : App → App
  switch_to_public app =
      record (scroll_to_bottom_current_conversation (show_selection (select_public app))) {
        pending_channel_switch = some public_channel;
      }

  unfoldable pub switch_to_channel : Text → App → App
  switch_to_channel channel_name app = elim (position channel_name app.channels) [
    | none ↦ app
    | some channel_idx ↦
        let app' = record app {
          sidebar_state = record app.sidebar_state {
            public_selected = none;
            people_selected = none;
            channel_selected = some channel_idx;
          };
        } in
        record (scroll_to_bottom_current_conversation (show_selection app')) {
          pending_channel_switch = some channel_name;
        }
  ]

  unfoldable pub switch_to_dm : Text → App → App
  switch_to_dm target_nickname app =
      let app' = record app {
        sidebar_state = record app.sidebar_state {
          public_selected = none;
          channel_selected = none;
        };
      } in
      elim (position target_nickname app'.people) [
        | none ↦ app'
        | some person_idx ↦
            let app2 = record app' {
              sidebar_state = record app'.sidebar_state { people_selected = some person_idx };
            } in
            record (scroll_to_bottom_current_conversation (show_selection app2)) {
              pending_dm_switch = some (target_nickname, []);
            }
      ]

  unfoldable pub join_channel : Text → App → App
  join_channel channel_name app =
      if bytes_beq channel_name public_channel
      then app
      else (let app1 = with_channel channel_name app in
          let app2 = record app1 {
            sidebar_state = record app1.sidebar_state { public_selected = none };
          } in
          with_entry channel_name (elim (position channel_name app2.channels) [
            | none ↦ app2
            | some channel_idx ↦
                let app3 = record app2 {
                  sidebar_state = record app2.sidebar_state { channel_selected = some channel_idx };
                } in
                record (show_selection app3) { pending_channel_switch = some channel_name }
          ]))

  unfoldable pub leave_geohash_channel : Text → App → App
  leave_geohash_channel channel app = switch_to_public (record app {
    channels = retain_other channel app.channels;
    geohash_people = remove channel app.geohash_people;
    geohash_people_pubkeys = remove channel app.geohash_people_pubkeys;
    geohash_last_dm_sender = remove channel app.geohash_last_dm_sender;
    geohash_last_mention_sender = remove channel app.geohash_last_mention_sender;
    geohash_presence = remove channel app.geohash_presence;
    channel_messages = remove channel app.channel_messages;
    dm_messages = retain_keys (is_dm_of channel) app.dm_messages;
    unread_counts = retain_keys (is_tied_to channel) app.unread_counts;
    last_read_messages = retain_keys (is_tied_to channel) app.last_read_messages;
  })
