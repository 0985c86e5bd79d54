-- ===== src/Maps/Entries.antt =====
-- Properties of all entries of a map, and maps with one entry for a key.
use bitchat_tui.Base.{
  ◌≡◌, ◌≢◌, refl, arith, [], ◌∷◌, List, false, Bool-cases, inl, inr, none, some, All,
}
use bitchat_tui.Maps.{Eq, lookup, insert, remove}

module _ {K V : Type 0} ⦃e : Eq K⦄ where
  pub All-lookup {κ} :
      (P : K × V → Type κ) (key : K) (found : V) (m : List (K × V))
      → All P m
      → lookup key m ≡ some found
      → P (key, found)
  unfolding lookup
  All-lookup P key found ((j, old) ∷ more) (p, ps) h = elim (Bool-cases (e.beq j key)) [
    | inl same ↦
        let key_same : j ≡ key = (e.beq_iff j key).0 same in
        let value_same : old ≡ found = ground (arith, same, h) in rw (← key_same, ← value_same) p
    | inr other ↦ All-lookup P key found more ps (ground (arith, other, h))
  ]
  All-lookup P key found [] ps h = absurd (ground (arith, h))

  pub All-insert {κ} :
      (P : K × V → Type κ) (key : K) (new : V) (m : List (K × V))
      → All P m
      → P (key, new)
      → All P (insert key new m)
  unfolding insert
  All-insert P key new [] ps p = (p, tt)
  All-insert P key new ((j, old) ∷ more) (q, qs) p = elim (Bool-cases (e.beq j key)) [
    | inl same ↦ rw same (p, qs)
    | inr other ↦ rw other (q, All-insert P key new more qs p)
  ]

  pub All-remove {κ} :
      (P : K × V → Type κ) (key : K) (m : List (K × V)) → All P m → All P (remove key m)
  unfolding remove
  All-remove P key [] ps = tt
  All-remove P key ((j, old) ∷ more) (q, qs) = elim (Bool-cases (e.beq j key)) [
    | inl same ↦ rw same qs
    | inr other ↦ rw other (q, All-remove P key more qs)
  ]

  -- To write what is there changes nothing.
  pub insert-lookup :
      (key : K) (found : V) (m : List (K × V)) → lookup key m ≡ some found → insert key found m ≡ m
  unfolding lookup insert
  insert-lookup key found [] h = ground arith
  insert-lookup key found ((j, old) ∷ more) h =
      ground (arith, e.beq_iff j key, insert-lookup key found more)

  pub lookup-remove_ne :
      (key j : K) (m : List (K × V)) → key ≢ j → lookup j (remove key m) ≡ lookup j m
  unfolding lookup remove
  lookup-remove_ne key j [] h = refl
  lookup-remove_ne key j ((i, old) ∷ more) h =
      ground (arith, e.beq_iff i key, e.beq_iff i j, lookup-remove_ne key j more)

  -- One entry for a key.
  abbrev pub OneEach : List (K × V) → Type 0
  OneEach [] = Unit
  OneEach ((j, old) ∷ more) = (lookup j more ≡ none) × OneEach more

  pub lookup-remove_self :
      (key : K) (m : List (K × V)) → OneEach m → lookup key (remove key m) ≡ none
  unfolding lookup remove
  lookup-remove_self key [] one = refl
  lookup-remove_self key ((j, old) ∷ more) (new, one) =
      ground (arith, e.beq_iff j key, lookup-remove_self key more one)

  insert_absent :
      (key j : K) (new : V) (m : List (K × V))
      → e.beq j key ≡ false
      → lookup j m ≡ none
      → lookup j (insert key new m) ≡ none
  unfolding lookup insert
  insert_absent key j new [] other h = ground (arith, e.beq_iff j key, e.beq_iff key j)
  insert_absent key j new ((i, old) ∷ more) other h = ground (
    arith,
    e.beq_iff j key,
    e.beq_iff key j,
    e.beq_iff i key,
    e.beq_iff i j,
    insert_absent key j new more,
  )

  pub insert-OneEach :
      (key : K) (new : V) (m : List (K × V)) → OneEach m → OneEach (insert key new m)
  unfolding insert lookup
  insert-OneEach key new [] one = (refl, tt)
  insert-OneEach key new ((j, old) ∷ more) (fresh, one) = elim (Bool-cases (e.beq j key)) [
    | inl same ↦ rw same (ground (arith, e.beq_iff j key, fresh), one)
    | inr other ↦
        rw other (insert_absent key j new more other fresh, insert-OneEach key new more one)
  ]

  pub remove_absent :
      (key j : K) (m : List (K × V)) → lookup j m ≡ none → lookup j (remove key m) ≡ none
  unfolding lookup remove
  remove_absent key j [] h = refl
  remove_absent key j ((i, old) ∷ more) h =
      ground (arith, e.beq_iff i key, e.beq_iff i j, remove_absent key j more)

  pub remove-OneEach : (key : K) (m : List (K × V)) → OneEach m → OneEach (remove key m)
  unfolding remove
  remove-OneEach key [] one = tt
  remove-OneEach key ((j, old) ∷ more) (fresh, one) = elim (Bool-cases (e.beq j key)) [
    | inl same ↦ rw same one
    | inr other ↦ rw other (remove_absent key j more fresh, remove-OneEach key more one)
  ]
