-- ===== src/App/Switch/Keys.antt =====
-- The keys and lists that `leave_geohash_channel` of src/tui/app.rs filters.
use bitchat_tui.Base.{
  ◌≡◌, ◌≢◌, refl, arith, [], ◌∷◌, ◌++◌, List, Bool, false, if◌then◌else◌, none, some, All,
}
use bitchat_tui.Text.{Text}
use bitchat_tui.Text.Trim.{strip_prefix, split_once}
use bitchat_tui.Maps.{bytes_eq, bytes_beq, bytes_beq_iff, lookup}
use bitchat_tui.App.{dm_key, geohash_dm_key, parse_geohash_dm_key}
use bitchat_tui.App.Switch.{position, is_there, retain_other, retain_keys, is_dm_of, is_tied_to}

pub position-retain_other :
    (channel : Text) (cs : List Text) → position channel (retain_other channel cs) ≡ none
unfolding position retain_other
position-retain_other channel [] = refl
position-retain_other channel (c ∷ cs) = ground (arith, position-retain_other channel cs)

pub lookup-retain_keys :
    {A : Type 0}
    → (drops : Text → Bool) (key : Text) (m : List (Text × A))
    → lookup key (retain_keys drops m) ≡ (if drops key then none else lookup key m)
unfolding lookup retain_keys
lookup-retain_keys drops key [] = ground arith
lookup-retain_keys drops key ((j, entry) ∷ m) =
    ground (arith, bytes_beq_iff j key, lookup-retain_keys drops key m)

pub position-retain_ne :
    (channel other : Text) (cs : List Text)
    → other ≢ channel
    → is_there (position other (retain_other channel cs)) ≡ is_there (position other cs)
unfolding position retain_other
position-retain_ne channel other [] h = refl
position-retain_ne channel other (c ∷ cs) h =
    ground
      (arith, bytes_beq_iff c channel, bytes_beq_iff c other, position-retain_ne channel other cs)

-- A name without a colon, as geohash channels have.
abbrev pub HasNoColon : Text → Type 0
HasNoColon = All (λ b. b ≢ b':')

split_once-append :
    (front back : Text)
    → HasNoColon front
    → split_once b':' (front ++ (b':' ∷ back)) ≡ some (front, back)
unfolding split_once
split_once-append [] back h = refl
split_once-append (b ∷ front) back (hb, h) = ground (arith, split_once-append front back h, hb)

-- The key of a direct message of a channel is read as that channel's.
pub is_dm_of-key :
    (channel other target : Text)
    → HasNoColon other
    → is_dm_of channel (geohash_dm_key other target) ≡ bytes_beq other channel
unfolding is_dm_of parse_geohash_dm_key geohash_dm_key strip_prefix
is_dm_of-key channel other target h = ground (arith, split_once-append other target h)

no_dm_prefix : (name : Text) → HasNoColon name → strip_prefix (b'd' ∷ b'm' ∷ b':' ∷ []) name ≡ none
unfolding strip_prefix
no_dm_prefix [] h = refl
no_dm_prefix (a ∷ []) h = ground arith
no_dm_prefix (a ∷ b ∷ []) h = ground arith
no_dm_prefix (a ∷ b ∷ c ∷ name) (ha, (hb, (hc, h))) = ground (arith, hc)

pub dm_key_ne : (name target : Text) → HasNoColon name → bytes_beq (dm_key target) name ≡ false
unfolding dm_key bytes_beq
dm_key_ne [] target h = refl
dm_key_ne (a ∷ []) target h = ground arith
dm_key_ne (a ∷ b ∷ []) target h = ground arith
dm_key_ne (a ∷ b ∷ c ∷ name) target (ha, (hb, (hc, h))) = ground (arith, hc)

pub is_tied_to-key :
    (channel other target : Text)
    → HasNoColon channel
    → HasNoColon other
    → is_tied_to channel (dm_key (geohash_dm_key other target)) ≡ bytes_beq other channel
unfolding is_tied_to strip_prefix dm_key
is_tied_to-key channel other target hc ho = ground (
  arith,
  dm_key_ne channel (geohash_dm_key other target) hc,
  is_dm_of-key channel other target ho,
)

pub is_tied_to-name :
    (channel other : Text) → HasNoColon other → is_tied_to channel other ≡ bytes_beq other channel
unfolding is_tied_to
is_tied_to-name channel other h = ground (arith, no_dm_prefix other h)

no_geo_prefix :
    (name : Text) → HasNoColon name → strip_prefix (b'g' ∷ b'e' ∷ b'o' ∷ b':' ∷ []) name ≡ none
unfolding strip_prefix
no_geo_prefix [] h = refl
no_geo_prefix (a ∷ []) h = ground arith
no_geo_prefix (a ∷ b ∷ []) h = ground arith
no_geo_prefix (a ∷ b ∷ c ∷ []) h = ground arith
no_geo_prefix (a ∷ b ∷ c ∷ d ∷ name) (ha, (hb, (hc, (hd, h)))) = ground (arith, hd)

-- The direct messages with a nickname of the mesh are no channel's.
pub is_dm_of-nickname :
    (channel nickname : Text) → HasNoColon nickname → is_dm_of channel nickname ≡ false
unfolding is_dm_of parse_geohash_dm_key
is_dm_of-nickname channel nickname h = ground (arith, no_geo_prefix nickname h)

pub is_tied_to-nickname :
    (channel nickname : Text)
    → HasNoColon channel
    → HasNoColon nickname
    → is_tied_to channel (dm_key nickname) ≡ false
unfolding is_tied_to strip_prefix dm_key
is_tied_to-nickname channel nickname hc hn =
    ground (arith, dm_key_ne channel nickname hc, is_dm_of-nickname channel nickname hn)
