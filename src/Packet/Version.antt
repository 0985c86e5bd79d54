-- ===== src/Packet/Version.antt =====
-- `ProtocolVersion::negotiate_version` of src/data_structures.rs; the order in which a `HashSet` is
-- walked does not matter to the maximum.
pub mod Laws
use bitchat_tui.Base.{
  ℕ, max, [], ◌∷◌, List, Bool, true, false, ◌||◌, ◌==◌, if◌then◌else◌, Option, none, some,
}

unfoldable pub contains : ℕ → List ℕ → Bool
contains v [] = false
contains v (w ∷ ws) = w == v || contains v ws

unfoldable pub intersection : List ℕ → List ℕ → List ℕ
intersection [] server = []
intersection (v ∷ client) server =
    let rest = intersection client server in if contains v server then v ∷ rest else rest

-- `Iterator::max`
unfoldable pub max_of : List ℕ → Option ℕ
max_of [] = none
max_of (v ∷ vs) = elim (max_of vs) [ none ↦ some v | some w ↦ some (max v w) ]

unfoldable pub negotiate_version : List ℕ → List ℕ → Option ℕ
negotiate_version client_versions server_versions =
    max_of (intersection client_versions server_versions)
