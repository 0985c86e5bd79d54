-- ===== src/Maps.antt =====
-- `HashMap` as an association list with one entry for a key: what the program uses of it does not
-- depend on the order of the entries. A `HashSet` is a map to the unit type.
pub mod Laws
pub mod Entries
use bitchat_tui.Base.{
  ℕ, ◌≡◌, ◌↔◌, [], ◌∷◌, List, Bool, true, false, if◌then◌else◌, Option, none, some, ◌==◌, ==_iff,
  ◌&&◌, arith, ap, inl, inr,
}
use bitchat_tui.Bytes.{Bytes}

pub record Eq {ℓ} (K : Type ℓ) : Type ℓ where
  pub beq : K → K → Bool
  pub beq_iff : (a b : K) → (beq a b ≡ true) ↔ (a ≡ b)

instance abbrev pub nat_eq : Eq ℕ
nat_eq = record { beq = ◌==◌; beq_iff = ==_iff }

unfoldable pub bytes_beq : Bytes → Bytes → Bool
bytes_beq [] [] = true
bytes_beq [] (b ∷ bs) = false
bytes_beq (a ∷ as') [] = false
bytes_beq (a ∷ as') (b ∷ bs) = a == b && bytes_beq as' bs

eq_of_bytes_beq : (x y : Bytes) → bytes_beq x y ≡ true → x ≡ y
unfolding bytes_beq
eq_of_bytes_beq [] [] h = cc
eq_of_bytes_beq [] (b ∷ bs) h = cc
eq_of_bytes_beq (a ∷ as') [] h = cc
eq_of_bytes_beq (a ∷ as') (b ∷ bs) h = ground (arith, eq_of_bytes_beq as' bs)

bytes_beq_refl : (x : Bytes) → bytes_beq x x ≡ true
unfolding bytes_beq
bytes_beq_refl [] = λ i. true
bytes_beq_refl (a ∷ as') = ground (arith, bytes_beq_refl as')

pub bytes_beq_iff : (x y : Bytes) → (bytes_beq x y ≡ true) ↔ (x ≡ y)
bytes_beq_iff x y = (eq_of_bytes_beq x y, λ p. rw (← p) (bytes_beq_refl x))

instance abbrev pub bytes_eq : Eq Bytes
bytes_eq = record { beq = bytes_beq; beq_iff = bytes_beq_iff }

module _ {K V : Type 0} ⦃e : Eq K⦄ where
  -- `get`
  unfoldable pub lookup : K → List (K × V) → Option V
  lookup key [] = none
  lookup key ((j, found) ∷ more) = if e.beq j key then some found else lookup key more

  -- A new key goes to the end, so that to remove it restores the list.
  unfoldable pub insert : K → V → List (K × V) → List (K × V)
  insert key new [] = (key, new) ∷ []
  insert key new ((j, old) ∷ more) =
      if e.beq j key then (key, new) ∷ more else (j, old) ∷ insert key new more

  unfoldable pub remove : K → List (K × V) → List (K × V)
  remove key [] = []
  remove key ((j, old) ∷ more) = if e.beq j key then more else (j, old) ∷ remove key more

  unfoldable pub contains_key : K → List (K × V) → Bool
  unfolding lookup
  contains_key k m = elim (lookup k m) [ some _ ↦ true | none ↦ false ]
