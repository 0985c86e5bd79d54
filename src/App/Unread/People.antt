-- ===== src/App/Unread/People.antt =====
-- Who is meant by the targets of direct messages in src/tui/app.rs, described apart from the code.
use bitchat_tui.Base.{
  ◌≡◌, ◌↔◌, arith, [], ◌∷◌, true, Option, none, some, inl, inr, Option-cases, Bool-cases, ap, sym,
  ◌∙◌,
}
use bitchat_tui.Text.{Text}
use bitchat_tui.Text.Trim.{trim, trim_start_matches, to_ascii_lowercase, strip_prefix, split_once}
use bitchat_tui.Maps.{bytes_eq, bytes_beq, bytes_beq_iff, lookup}
use bitchat_tui.App.{
  App, parse_geohash_dm_key, resolve_geohash_target_pubkey, geohash_person_pubkey,
}
use bitchat_tui.App.Unread.{
  normalize_mesh_dm_target, canonical_geohash_dm_target, same_parsed, dm_targets_equivalent,
  is_same_thread,
}

-- A nickname of the mesh, or a channel with the public key of one of its people, or with the
-- nickname where no key is known.
pub data Person : Type 0 where
  mesh : Text → Person
  member : Text → Text → Person

-- A nickname counts in lower case, without white space round it and the signs @ in front.
abbrev pub mesh_person : Text → Person
mesh_person target = mesh (to_ascii_lowercase (trim_start_matches b'@' (trim target)))

module _ (normalize : Text → Option Text) where
  -- The public key that the channel knows for the name, or that the name itself is.
  abbrev pub key_of : App → Text → Text → Option Text
  key_of app channel name = elim (lookup channel app.geohash_people_pubkeys) [
    | none ↦ normalize name
    | some known ↦ elim (lookup name known) [ some pubkey ↦ some pubkey | none ↦ normalize name ]
  ]

  -- "geo:<channel>:<name>" means a member of the channel, any other target a nickname.
  unfoldable pub person_of : App → Text → Person
  person_of app target = elim (strip_prefix (b'g' ∷ b'e' ∷ b'o' ∷ b':' ∷ []) target) [
    | none ↦ mesh_person target
    | some rest ↦ elim (split_once b':' rest) [
      | none ↦ mesh_person target
      | some (channel, name) ↦ member channel (elim (key_of app channel name) [
        | some pubkey ↦ pubkey
        | none ↦ to_ascii_lowercase (trim name)
      ])
    ]
  ]

  -- The person that the parsed target means.
  parsed_person : App → Text → Option (Text × Text) → Person
  parsed_person app target none = mesh_person target
  parsed_person app target (some (channel, name)) =
      member channel (canonical_geohash_dm_target normalize app channel name)

  person_lem :
      (app : App) (target : Text)
      → parsed_person app target (parse_geohash_dm_key target) ≡ person_of app target
  unfolding person_of parsed_person parse_geohash_dm_key canonical_geohash_dm_target
      resolve_geohash_target_pubkey geohash_person_pubkey
  person_lem app target = ground arith

  same_parsed_iff :
      (app : App) (left right : Text) (l r : Option (Text × Text))
      → (same_parsed normalize app left right l r ≡ true)
        ↔ (parsed_person app left l ≡ parsed_person app right r)
  unfolding same_parsed parsed_person normalize_mesh_dm_target
  same_parsed_iff app left right none none =
      let same = bytes_beq_iff (normalize_mesh_dm_target left) (normalize_mesh_dm_target right) in
      (λ h. ground (arith, same), λ h. ground (arith, same, h))
  same_parsed_iff app left right none (some (c, n)) = (λ h. ground arith, λ h. ground (arith, h))
  same_parsed_iff app left right (some (c, n)) none = (λ h. ground arith, λ h. ground (arith, h))
  same_parsed_iff app left right (some (c, n)) (some (d, k)) =
      let channels = bytes_beq_iff c d in
      let names =
        bytes_beq_iff (canonical_geohash_dm_target normalize app c n)
          (canonical_geohash_dm_target normalize app d k) in
      (λ h. ground (arith, channels, names), λ h. ground (arith, channels, names, h))

  -- Two targets are equivalent exactly when they mean the same person.
  pub dm_targets_equivalent_iff :
      (app : App) (left right : Text)
      → (dm_targets_equivalent normalize app left right ≡ true)
        ↔ (person_of app left ≡ person_of app right)
  unfolding dm_targets_equivalent
  dm_targets_equivalent_iff app left right =
      let same = bytes_beq_iff left right in
      let parsed =
        same_parsed_iff app left right (parse_geohash_dm_key left) (parse_geohash_dm_key right) in
      let l = person_lem app left in
      let r = person_lem app right in
      elim (Bool-cases (bytes_beq left right)) [
        | inl e ↦ (λ h. ap (person_of app) (same.0 e), λ h. ground (arith, e))
        | inr e ↦ rw e (λ h. sym l ∙ parsed.0 h ∙ r, λ h. parsed.1 (l ∙ h ∙ sym r))
      ]

  strip_dm :
      (key other : Text)
      → (strip_prefix (b'd' ∷ b'm' ∷ b':' ∷ []) key ≡ some other)
        ↔ (key ≡ b'd' ∷ b'm' ∷ b':' ∷ other)
  unfolding strip_prefix
  strip_dm [] other = (λ h. ground (arith, h), λ h. ground (arith, h))
  strip_dm (a ∷ []) other = (λ h. ground (arith, h), λ h. ground (arith, h))
  strip_dm (a ∷ b ∷ []) other = (λ h. ground (arith, h), λ h. ground (arith, h))
  strip_dm (a ∷ b ∷ c ∷ key) other = (λ h. ground (arith, h), λ h. ground (arith, h))

  -- A key is of the same thread exactly when it is a direct message's and its target means the
  -- same person.
  pub is_same_thread_iff :
      (app : App) (target key : Text)
      → (is_same_thread normalize app target key ≡ true) ↔ (
          (other : Text) × (key ≡ b'd' ∷ b'm' ∷ b':' ∷ other)
          × (person_of app target ≡ person_of app other))
  unfolding is_same_thread
  is_same_thread_iff app target key = (
    λ h. elim (Option-cases (strip_prefix (b'd' ∷ b'm' ∷ b':' ∷ []) key)) [
      | inl (other, e) ↦ (
        other,
        (strip_dm key other).0 e,
        (dm_targets_equivalent_iff app target other).0 (ground (arith, e, h)),
      )
      | inr e ↦ absurd (ground (arith, e, h))
    ],
    λ (name, shape, same).
        ground
          (arith, (strip_dm key name).1 shape, (dm_targets_equivalent_iff app target name).1 same),
  )
