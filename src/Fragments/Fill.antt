-- ===== src/Fragments/Fill.antt =====
-- The map of one message after some of its fragments have come: which indices it holds, and when
-- its size shows that it holds all.
use bitchat_tui.Base.{
  ℕ, zero, suc, ◌+◌, ◌≤◌, ◌<◌, ◌≡◌, ◌≢◌, refl, ap, arith, [], ◌∷◌, ◌++◌, List, Bool, true, false,
  ◌||◌, ◌&&◌, if◌then◌else◌, ◌==◌, ltb, not, Option, none, some, length, All, append-nil,
  append_assoc,
}
use bitchat_tui.Bytes.{Bytes}
use bitchat_tui.Maps.{lookup, insert, nat_eq}
use bitchat_tui.Maps.Laws.{lookup-insert, length-insert}
use bitchat_tui.Fragments.{FragmentMap, assemble}

abbrev pub elem : ℕ → List ℕ → Bool
elem i [] = false
elem i (j ∷ js) = j == i || elem i js

abbrev pub is_present : Option Bytes → Bool
is_present none = false
is_present (some _) = true

-- How many of the indices below `n` the map holds.
unfoldable pub covered : ℕ → FragmentMap → ℕ
covered zero m = 0
covered (suc n) m = (if is_present (lookup n m) then 1 else 0) + covered n m

covered-insert :
    (n i : ℕ) (v : Bytes) (m : FragmentMap)
    → covered n (insert i v m)
      ≡ (if ltb i n && not (is_present (lookup i m)) then suc (covered n m) else covered n m)
unfolding covered
covered-insert zero i v m = ground arith
covered-insert (suc n) i v m = ground (arith, lookup-insert i n v m, covered-insert n i v m)

covered_le : (n : ℕ) (m : FragmentMap) → covered n m ≤ n
unfolding covered
covered_le zero m = omega arith
covered_le (suc n) m = ground (arith, covered_le n m)

pub present_of_covered :
    (n : ℕ) (m : FragmentMap) (i : ℕ) → covered n m ≡ n → i < n → is_present (lookup i m) ≡ true
unfolding covered
present_of_covered zero m i h lt = absurd (omega arith)
present_of_covered (suc n) m i h lt = ground (arith, covered_le n m, present_of_covered n m i)

pub covered_of_present :
    (n : ℕ) (m : FragmentMap) → ((i : ℕ) → i < n → is_present (lookup i m) ≡ true) → covered n m ≡ n
unfolding covered
covered_of_present zero m h = refl
covered_of_present (suc n) m h =
    ground (arith, h n (omega arith), covered_of_present n m (λ i lt. h i (omega arith)))

module _ (chunk : ℕ → Bytes) where
  -- The map after the fragments `seen` have come on top of `m`.
  abbrev pub fill : List ℕ → FragmentMap → FragmentMap
  fill [] m = m
  fill (i ∷ seen) m = fill seen (insert i (chunk i) m)

  pub fill-append :
      (seen more : List ℕ) (m : FragmentMap) → fill (seen ++ more) m ≡ fill more (fill seen m)
  fill-append [] more m = refl
  fill-append (i ∷ seen) more m = fill-append seen more (insert i (chunk i) m)

  pub lookup-fill :
      (i : ℕ) (seen : List ℕ) (m : FragmentMap)
      → lookup i (fill seen m) ≡ (if elem i seen then some (chunk i) else lookup i m)
  lookup-fill i [] m = refl
  lookup-fill i (j ∷ seen) m =
      ground (arith, lookup-fill i seen (insert j (chunk j) m), lookup-insert j i (chunk j) m)

  pub length-fill :
      (n : ℕ) (seen : List ℕ) (m : FragmentMap)
      → All (λ i. i < n) seen
      → length m ≡ covered n m
      → length (fill seen m) ≡ covered n (fill seen m)
  length-fill n [] m below h = h
  length-fill n (i ∷ seen) m (lt, below) h =
      length-fill n seen (insert i (chunk i) m) below
        (ground (arith, covered-insert n i (chunk i) m, length-insert i (chunk i) m))

  -- The chunks from index `i` on.
  abbrev pub chunks_from : ℕ → ℕ → Bytes
  chunks_from zero i = []
  chunks_from (suc count) i = chunk i ++ chunks_from count (i + 1)

  pub assemble_lem :
      (count i : ℕ) (m : FragmentMap) (complete : Bytes)
      → ((j : ℕ) → j < i + count → lookup j m ≡ some (chunk j))
      → assemble count i m complete ≡ some (complete ++ chunks_from count i)
  unfolding assemble
  assemble_lem zero i m complete h = ap some (ground (arith, append-nil complete))
  assemble_lem (suc count) i m complete h = ground (
    arith,
    h i (omega arith),
    assemble_lem count (i + 1) m (complete ++ chunk i) (λ j lt. h j (omega arith)),
    append_assoc complete (chunk i) (chunks_from count (i + 1)),
  )

pub covered-nil : (n : ℕ) → covered n [] ≡ 0
unfolding covered lookup
covered-nil zero = refl
covered-nil (suc n) = ground (arith, covered-nil n)

pub elem-append : (i : ℕ) (xs ys : List ℕ) → elem i (xs ++ ys) ≡ (elem i xs || elem i ys)
elem-append i [] ys = refl
elem-append i (x ∷ xs) ys = ground (arith, elem-append i xs ys)

module _ (chunk : ℕ → Bytes) (n : ℕ) (seen : List ℕ) (below : All (λ i. i < n) seen) where
  lookup_seen :
      (i : ℕ) → lookup i (fill chunk seen []) ≡ (if elem i seen then some (chunk i) else none)
  unfolding lookup
  lookup_seen i = lookup-fill chunk i seen []

  -- While an index is missing the map is smaller than the message.
  pub length-fill-ne :
      (last : ℕ) → last < n → elem last seen ≡ false → length (fill chunk seen []) ≢ n
  length-fill-ne last lt missing h = ground (
    arith,
    length-fill chunk n seen [] below (ground (arith, covered-nil n)),
    present_of_covered n (fill chunk seen []) last,
    lookup_seen last,
  )

  -- With every index it has the size of the message, and the chunks are found in order.
  pub fill_complete :
      ((i : ℕ) → i < n → elem i seen ≡ true)
      → (length (fill chunk seen []) ≡ n)
        × (assemble n 0 (fill chunk seen []) [] ≡ some (chunks_from chunk n 0))
  fill_complete all = (
    ground (
      arith,
      length-fill chunk n seen [] below (ground (arith, covered-nil n)),
      covered_of_present n (fill chunk seen []) (λ i lt. ground (arith, lookup_seen i, all i lt)),
    ),
    assemble_lem chunk n 0 (fill chunk seen []) []
        (λ i lt. ground (arith, lookup_seen i, all i (omega arith))),
  )
