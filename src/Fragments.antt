-- ===== src/Fragments.antt =====
-- Fragments: `FragmentCollector` of src/data_structures.rs. src/fragmentation.rs and the fragment
-- part of src/notification_handlers.rs are in the children.
pub mod Send
pub mod Receive
pub mod Relay
pub mod Chunks
pub mod Fill
pub mod Reassembly
pub mod EndToEnd
pub mod Delivery
use bitchat_tui.Base.{
  ℕ, zero, suc, ◌+◌, [], ◌∷◌, ◌++◌, List, if◌then◌else◌, ◌==◌, Option, none, some, length,
}
use bitchat_tui.Bytes.{Bytes}
use bitchat_tui.Text.{Text}
use bitchat_tui.Hex.{hex_encode}
use bitchat_tui.Maps.{lookup, insert, remove, contains_key, bytes_eq, nat_eq}

-- index -> data
abbrev pub FragmentMap : Type 0
FragmentMap = List (ℕ × Bytes)

-- The keys are the hex forms of the fragment ids; the metadata are total, type and sender.
pub record FragmentCollector : Type 0 where
  pub fragments : List (Text × FragmentMap)
  pub metadata : List (Text × (ℕ × ℕ × Text))

abbrev pub new : FragmentCollector
new = record { fragments = []; metadata = [] }

abbrev pub unknown_sender : Text
unknown_sender = b'U' ∷ b'n' ∷ b'k' ∷ b'n' ∷ b'o' ∷ b'w' ∷ b'n' ∷ []

-- `for i in 0..total`, with `count` rounds left; a missing fragment is an early `return None`.
unfoldable pub assemble : ℕ → ℕ → FragmentMap → Bytes → Option Bytes
assemble zero i stored complete = some complete
assemble (suc count) i stored complete = elim (lookup i stored) [
  | none ↦ none
  | some bytes ↦ assemble count (i + 1) stored (complete ++ bytes)
]

-- "Initialize if first fragment"
unfoldable pub open_entry : Text → ℕ → ℕ → Text → FragmentCollector → FragmentCollector
open_entry key total original_type sender c = if contains_key key c.fragments then c else record c {
  fragments = insert key [] c.fragments;
  metadata = insert key (total, original_type, sender) c.metadata;
}

unfoldable pub sender_of : Option (ℕ × ℕ × Text) → Text
sender_of none = unknown_sender
sender_of (some (total, original_type, sender)) = sender

-- The entry exists, holds `stored`, and gets the new fragment.
unfoldable pub store_fragment :
    Text
    → ℕ
    → ℕ
    → Bytes
    → FragmentMap
    → FragmentCollector
    → FragmentCollector × Option (Bytes × Text)
store_fragment key index total bytes stored c =
    let stored' = insert index bytes stored in
    let c' = record c { fragments = insert key stored' c.fragments } in
    if length stored' == total
    then elim (assemble total 0 stored' []) [
      | none ↦ (c', none)
      | some complete ↦ (
        record { fragments = remove key c'.fragments; metadata = remove key c'.metadata },
        some (complete, sender_of (lookup key c'.metadata)),
      )
    ]
    else (c', none)

unfoldable pub add_fragment :
    Bytes → ℕ → ℕ → ℕ → Bytes → Text → FragmentCollector → FragmentCollector × Option (Bytes × Text)
unfolding open_entry
add_fragment fragment_id index total original_type bytes sender c =
    let key = hex_encode fragment_id in
    let c' = open_entry key total original_type sender c in
    elim (lookup key c'.fragments) [
      | none ↦ (c', none)
      | some stored ↦ store_fragment key index total bytes stored c'
    ]
