-- ===== src/Fragments/Chunks.antt =====
-- Cutting a packet into chunks loses nothing, and how many chunks there are.
use bitchat_tui.Base.{
  ℕ, zero, suc, ◌+◌, ◌*◌, ◌≤◌, ◌<◌, ◌≡◌, refl, ◌∙◌, ap, arith, [], ◌∷◌, ◌++◌, List, length, take,
  drop, get_or, All, length-take, length-drop, take-append-drop,
}
use bitchat_tui.Bytes.{Bytes}
use bitchat_tui.Fragments.Send.{chunks, chunks_loop}
use bitchat_tui.Fragments.Fill.{chunks_from}

abbrev pub concat : List Bytes → Bytes
concat [] = []
concat (piece ∷ pieces) = piece ++ concat pieces

concat-chunks_loop :
    (fuel size : ℕ) (bytes : Bytes)
    → 0 < size
    → length bytes ≤ fuel
    → concat (chunks_loop fuel size bytes) ≡ bytes
unfolding chunks_loop
concat-chunks_loop zero size [] hs h = refl
concat-chunks_loop zero size (b ∷ bs) hs h = absurd (omega arith)
concat-chunks_loop (suc fuel) size [] hs h = refl
concat-chunks_loop (suc fuel) size (b ∷ bs) hs h =
    ap (λ rest. take size (b ∷ bs) ++ rest)
      (concat-chunks_loop fuel size (drop size (b ∷ bs)) hs
        (omega (arith, length-drop size (b ∷ bs))))
    ∙ take-append-drop size (b ∷ bs)

-- The chunks joined are the packet.
pub concat-chunks : (size : ℕ) (bytes : Bytes) → 0 < size → concat (chunks size bytes) ≡ bytes
unfolding chunks
concat-chunks size bytes hs = concat-chunks_loop (length bytes) size bytes hs (omega arith)

chunks_loop_sizes :
    (fuel size : ℕ) (bytes : Bytes)
    → All (λ piece. length piece ≤ size) (chunks_loop fuel size bytes)
unfolding chunks_loop
chunks_loop_sizes zero size bytes = tt
chunks_loop_sizes (suc fuel) size [] = tt
chunks_loop_sizes (suc fuel) size (b ∷ bs) =
    (omega (arith, length-take size (b ∷ bs)), chunks_loop_sizes fuel size (drop size (b ∷ bs)))

pub chunks_sizes :
    (size : ℕ) (bytes : Bytes) → All (λ piece. length piece ≤ size) (chunks size bytes)
unfolding chunks
chunks_sizes size bytes = chunks_loop_sizes (length bytes) size bytes

count_nil :
    (fuel size : ℕ) (bytes : Bytes)
    → length bytes ≡ 0
    → length (chunks_loop fuel size bytes) * size ≡ 0
unfolding chunks_loop
count_nil zero size bytes h = omega arith
count_nil (suc fuel) size [] h = omega arith
count_nil (suc fuel) size (b ∷ bs) h = absurd (omega arith)

length-chunks_loop :
    (fuel size : ℕ) (bytes : Bytes)
    → 0 < size
    → length bytes ≤ fuel
    → (length bytes ≤ length (chunks_loop fuel size bytes) * size)
      × (length (chunks_loop fuel size bytes) * size < length bytes + size)
unfolding chunks_loop
length-chunks_loop zero size [] hs h = omega arith
length-chunks_loop zero size (b ∷ bs) hs h = absurd (omega arith)
length-chunks_loop (suc fuel) size [] hs h = omega arith
length-chunks_loop (suc fuel) size (b ∷ bs) hs h =
    let rest = drop size (b ∷ bs) in
    let size_rest = length-drop size (b ∷ bs) in
    let (lo, hi) =
      length-chunks_loop fuel size rest hs (omega (arith, length-drop size (b ∷ bs))) in
    let empty = count_nil fuel size rest in (grind arith, grind arith)

pub length-chunks :
    (size : ℕ) (bytes : Bytes)
    → 0 < size
    → (length bytes ≤ length (chunks size bytes) * size)
      × (length (chunks size bytes) * size < length bytes + size)
unfolding chunks
length-chunks size bytes hs = length-chunks_loop (length bytes) size bytes hs (omega arith)

add_one : (i : ℕ) → i + 1 ≡ suc i
add_one i = omega arith

chunks_from-shift :
    (chunk : ℕ → Bytes) (count i : ℕ)
    → chunks_from chunk count (suc i) ≡ chunks_from (λ j. chunk (suc j)) count i
chunks_from-shift chunk zero i = refl
chunks_from-shift chunk (suc count) i =
    ground (arith, chunks_from-shift chunk count (suc i), add_one i)

-- The chunks taken by index, in order, are the chunks joined.
pub chunks_from-get_or :
    (pieces : List Bytes) → chunks_from (λ i. get_or pieces i []) (length pieces) 0 ≡ concat pieces
chunks_from-get_or [] = refl
chunks_from-get_or (piece ∷ pieces) =
    ap (λ rest. piece ++ rest)
      (chunks_from-shift (λ i. get_or (piece ∷ pieces) i []) (length pieces) 0
        ∙ chunks_from-get_or pieces)
