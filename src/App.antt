-- ===== src/App.antt =====
-- The conversations of src/tui/app.rs: what is selected, whose messages are shown, the geohash
-- channels of src/nostr_geo.rs. Of `App` the fields are kept that these depend on.
pub mod Messages
pub mod Status
pub mod Unread
pub mod Switch
pub mod Sent
use bitchat_tui.Base.{
  ℕ, ◌+◌, [], ◌∷◌, ◌++◌, List, Bool, true, false, if◌then◌else◌, ◌&&◌, ◌||◌, ◌==◌, leb, not, Option,
  none, some, length, get_elem?, get_or,
}
use bitchat_tui.Bytes.{Bytes}
use bitchat_tui.Text.{Text}
use bitchat_tui.Text.Trim.{trim, trim_start_matches, to_ascii_lowercase, strip_prefix, split_once}
use bitchat_tui.Maps.{bytes_eq, bytes_beq, lookup, insert}

pub data MessageStatus : Type 0 where
  no_status sending delivered read_status failed_status : MessageStatus

pub record Message : Type 0 where
  pub sender : Text
  pub sender_pubkey : Option Text
  pub timestamp : Text
  pub timestamp_epoch : Option ℕ
  pub content : Text
  pub is_self : Bool
  pub status : MessageStatus
  pub local_id : Option Text

pub record SidebarMenuState : Type 0 where
  pub expanded : List Bool
  pub public_selected : Option Bool
  pub channel_selected : Option ℕ
  pub people_selected : Option ℕ
  pub blocked_selected : Option ℕ

pub record App : Type 0 where
  pub sidebar_flat_selected : ℕ
  pub msg_scroll : ℕ
  pub message_viewport_height : ℕ
  pub message_rendered_line_count : ℕ
  pub unseen_divider_message_index : Option ℕ
  pub unseen_divider_line_index : Option ℕ
  pub nickname : Text
  pub channels : List Text
  pub people : List Text
  pub geohash_people : List (Text × List Text)
  pub geohash_people_pubkeys : List (Text × List (Text × Text))
  pub geohash_last_dm_sender : List (Text × Text)
  pub geohash_last_mention_sender : List (Text × Text)
  pub geohash_presence : List (Text × List (Text × ℕ))
  pub blocked : List Text
  pub verified_identities : List Text
  pub channel_messages : List (Text × List Message)
  pub dm_messages : List (Text × List Message)
  pub sidebar_state : SidebarMenuState
  -- The target of a direct message, and the channel.
  pub current_conv : Option (Option Text × Option Text)
  pub pending_channel_switch : Option Text
  pub pending_dm_switch : Option (Text × Text)
  pub unread_counts : List (Text × ℕ)
  pub last_read_messages : List (Text × ℕ)

-- "#public"
abbrev pub public_channel : Text
public_channel = b'#' ∷ b'p' ∷ b'u' ∷ b'b' ∷ b'l' ∷ b'i' ∷ b'c' ∷ []

-- "0123456789bcdefghjkmnpqrstuvwxyz"
unfoldable pub in_geohash_alphabet : ℕ → Bool
in_geohash_alphabet b =
    (leb b'0' b && leb b b'9')
    || (leb b'b' b && leb b b'z' && not (b == b'i') && not (b == b'l') && not (b == b'o'))

unfoldable pub all_in_alphabet : Text → Bool
all_in_alphabet [] = true
all_in_alphabet (b ∷ bs) = in_geohash_alphabet b && all_in_alphabet bs

unfoldable pub normalize_geohash : Text → Option Text
normalize_geohash channel =
    let geohash = to_ascii_lowercase (trim_start_matches b'#' (trim channel)) in
    let n = length geohash in
    if not (n == 2 || n == 4 || n == 5 || n == 6 || n == 7 || n == 8)
    then none
    else if all_in_alphabet geohash
    then some geohash
    else none

unfoldable pub is_geohash_channel : Text → Bool
is_geohash_channel channel = elim (normalize_geohash channel) [ some _ ↦ true | none ↦ false ]

abbrev pub flag_or : Option Bool → Bool
flag_or none = false
flag_or (some flag) = flag

unfoldable pub get_selected_channel_name : App → Text
get_selected_channel_name app =
    if flag_or app.sidebar_state.public_selected
    then public_channel
    else elim app.sidebar_state.channel_selected [
      | none ↦ public_channel
      | some idx ↦ elim (get_elem? app.channels idx) [
        | some ch_name ↦ ch_name
        | none ↦ public_channel
      ]
    ]

unfoldable pub current_people_are_geohash : App → Bool
current_people_are_geohash app = is_geohash_channel (get_selected_channel_name app)

abbrev pub entries_of : {A : Type 0} → Text → List (Text × List A) → List A
entries_of key m = elim (lookup key m) [ some found ↦ found | none ↦ [] ]

unfoldable pub visible_people : App → List Text
visible_people app =
    if current_people_are_geohash app
    then entries_of (get_selected_channel_name app) app.geohash_people
    else app.people

unfoldable pub visible_person_at : App → ℕ → Option Text
visible_person_at app idx = get_elem? (visible_people app) idx

-- "geo:<channel>:<target>"
unfoldable pub geohash_dm_key : Text → Text → Text
geohash_dm_key channel target = b'g' ∷ b'e' ∷ b'o' ∷ b':' ∷ (channel ++ (b':' ∷ target))

unfoldable pub parse_geohash_dm_key : Text → Option (Text × Text)
parse_geohash_dm_key key = elim (strip_prefix (b'g' ∷ b'e' ∷ b'o' ∷ b':' ∷ []) key) [
  | none ↦ none
  | some rest ↦ split_once b':' rest
]

-- "dm:<target>"
unfoldable pub dm_key : Text → Text
dm_key target = b'd' ∷ b'm' ∷ b':' ∷ target

unfoldable pub geohash_person_pubkey : App → Text → Text → Option Text
geohash_person_pubkey app channel nickname = elim (lookup channel app.geohash_people_pubkeys) [
  | none ↦ none
  | some known ↦ lookup nickname known
]

unfoldable pub scroll_to_bottom_current_conversation : App → App
scroll_to_bottom_current_conversation app = record app {
  msg_scroll = 0;
  unseen_divider_message_index = none;
  unseen_divider_line_index = none;
}

-- `normalize_dm_pubkey` of src/nostr_geo.rs, which the crates for bech32 and secp256k1 decide: what
-- follows holds for every such function.
module _ (normalize_dm_pubkey : Text → Option Text) where
  unfoldable pub resolve_geohash_target_pubkey : App → Text → Text → Option Text
  resolve_geohash_target_pubkey app channel target =
      elim (geohash_person_pubkey app channel target) [
        | some pubkey ↦ some pubkey
        | none ↦ normalize_dm_pubkey target
      ]

  unfoldable pub geohash_dm_thread_key : App → Text → Text → Text
  geohash_dm_thread_key app channel target =
      elim (resolve_geohash_target_pubkey app channel target) [
        | some pubkey ↦ geohash_dm_key channel pubkey
        | none ↦ geohash_dm_key channel target
      ]

  -- The person whose conversation is selected: the key of its messages.
  unfoldable pub selected_thread : App → Option Text
  selected_thread app = elim app.sidebar_state.people_selected [
    | none ↦ none
    | some user_idx ↦
        if not (current_people_are_geohash app)
        then get_elem? app.people user_idx
        else elim (visible_person_at app user_idx) [
          | none ↦ none
          | some user ↦ some (geohash_dm_thread_key app (get_selected_channel_name app) user)
        ]
  ]

  unfoldable pub update_current_conversation : App → App
  update_current_conversation app = record app {
    current_conv = some (elim (selected_thread app) [
      | some target ↦
          if current_people_are_geohash app
          then (some target, some (get_selected_channel_name app))
          else (some target, none)
      | none ↦ (none, some (get_selected_channel_name app))
    ]);
  }

  -- The messages, and the target or the channel.
  unfoldable pub get_current_messages : App → List Message × Option Text × Option Text
  get_current_messages app = elim (selected_thread app) [
    | some target ↦ (entries_of target app.dm_messages, some target, none)
    | none ↦
        let ch = get_selected_channel_name app in
        (entries_of ch app.channel_messages, none, some ch)
  ]
