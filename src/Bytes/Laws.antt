-- ===== src/Bytes/Laws.antt =====
-- The laws of big-endian numbers and of cutting a buffer.
use bitchat_tui.Base.{
  ℕ, zero, suc, ◌+◌, ◌*◌, ◌/◌, ◌%◌, ◌^◌, ◌<◌, ◌≡◌, refl, arith, [], ◌∷◌, ◌++◌, foldl, some, length,
  All, All-append, length-append, take-append_length, drop-append_length, length-take, length-drop,
  take-append-drop,
}
use bitchat_tui.Bytes.{Bytes, IsByte, to_be_bytes, from_be_bytes, split}
use native.Mathlib.Nat.{pow-suc}

pub length-to_be_bytes : (width value : ℕ) → length (to_be_bytes width value) ≡ width
unfolding to_be_bytes
length-to_be_bytes zero value = refl
length-to_be_bytes (suc width) value = omega (
  arith,
  length-append (to_be_bytes width (value / 256)) (value % 256 ∷ []),
  length-to_be_bytes width (value / 256),
)

pub to_be_bytes-IsByte : (width value : ℕ) → All IsByte (to_be_bytes width value)
unfolding to_be_bytes
to_be_bytes-IsByte zero value = tt
to_be_bytes-IsByte (suc width) value =
    All-append IsByte (to_be_bytes width (value / 256)) (value % 256 ∷ [])
      (to_be_bytes-IsByte width (value / 256)) (omega arith, tt)

foldl-append_last :
    (acc : ℕ) (xs : Bytes) (b : ℕ)
    → foldl (λ acc b. acc * 256 + b) acc (xs ++ (b ∷ []))
      ≡ foldl (λ acc b. acc * 256 + b) acc xs * 256 + b
foldl-append_last acc [] b = refl
foldl-append_last acc (x ∷ xs) b = foldl-append_last (acc * 256 + x) xs b

-- A number that fits the width is read back.
pub from_be_bytes-to_be_bytes :
    (width value : ℕ) → value < 256 ^ width → from_be_bytes (to_be_bytes width value) ≡ value
unfolding from_be_bytes to_be_bytes
from_be_bytes-to_be_bytes zero value h = omega arith
from_be_bytes-to_be_bytes (suc width) value h = omega (
  arith,
  foldl-append_last 0 (to_be_bytes width (value / 256)) (value % 256),
  from_be_bytes-to_be_bytes width (value / 256) (omega (arith, pow-suc 256 width)),
)

pub split-append : (n : ℕ) (xs ys : Bytes) → length xs ≡ n → split n (xs ++ ys) ≡ some (xs, ys)
unfolding split
split-append n xs ys h =
    ground (arith, length-append xs ys, take-append_length n xs ys h, drop-append_length n xs ys h)

pub split_inv :
    (n : ℕ) (rest xs ys : Bytes)
    → split n rest ≡ some (xs, ys)
    → (rest ≡ xs ++ ys) × (length xs ≡ n)
unfolding split
split_inv n rest xs ys h =
    ground (arith, take-append-drop n rest, length-take n rest, length-drop n rest)
