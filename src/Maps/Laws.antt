-- ===== src/Maps/Laws.antt =====
-- The laws of maps.
use bitchat_tui.Base.{suc, ◌≡◌, ◌≢◌, [], ◌∷◌, List, if◌then◌else◌, none, some, arith, length, refl}
use bitchat_tui.Maps.{Eq, lookup, insert, remove}

module _ {K V : Type 0} ⦃e : Eq K⦄ where
  pub lookup-insert :
      (key j : K) (new : V) (m : List (K × V))
      → lookup j (insert key new m) ≡ (if e.beq key j then some new else lookup j m)
  unfolding lookup insert
  lookup-insert key j new [] = refl
  lookup-insert key j new ((i, old) ∷ more) =
      ground (arith, e.beq_iff key j, e.beq_iff i key, e.beq_iff i j, lookup-insert key j new more)

  pub lookup-insert_self : (k : K) (v : V) (m : List (K × V)) → lookup k (insert k v m) ≡ some v
  lookup-insert_self k v m = ground (arith, lookup-insert k k v m, e.beq_iff k k)

  pub lookup-insert_ne :
      (k j : K) (v : V) (m : List (K × V)) → k ≢ j → lookup j (insert k v m) ≡ lookup j m
  lookup-insert_ne k j v m h = ground (arith, lookup-insert k j v m, e.beq_iff k j)

  -- A second write replaces the first.
  pub insert-insert :
      (k : K) (v w : V) (m : List (K × V)) → insert k w (insert k v m) ≡ insert k w m
  unfolding insert
  insert-insert k v w [] = ground (arith, e.beq_iff k k)
  insert-insert k v w ((i, u) ∷ m) =
      ground (arith, e.beq_iff k k, e.beq_iff i k, insert-insert k v w m)

  -- To remove a new key gives the map back.
  pub remove-insert_new :
      (k : K) (v : V) (m : List (K × V)) → lookup k m ≡ none → remove k (insert k v m) ≡ m
  unfolding lookup insert remove
  remove-insert_new k v [] h = ground (arith, e.beq_iff k k)
  remove-insert_new k v ((i, u) ∷ m) h = ground (arith, e.beq_iff i k, remove-insert_new k v m)

  pub length-insert :
      (k : K) (v : V) (m : List (K × V))
      → length (insert k v m) ≡ (elim (lookup k m) [ some _ ↦ length m | none ↦ suc (length m) ])
  unfolding lookup insert
  length-insert k v [] = refl
  length-insert k v ((i, u) ∷ m) = ground (arith, e.beq_iff i k, length-insert k v m)
