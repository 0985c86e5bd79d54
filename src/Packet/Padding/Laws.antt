-- ===== src/Packet/Padding/Laws.antt =====
-- Padding is removed exactly, and its length is known.
use bitchat_tui.Base.{
  ℕ, zero, suc, ◌+◌, ◌-◌, ◌≤◌, ◌<◌, ◌≡◌, ◌≢◌, ◌∙◌, refl, ap, arith, [], ◌∷◌, ◌++◌, true, length,
  replicate, get_elem?, some, ok, length-append, length-replicate, drop-append_length,
  take-append_length, if◌then◌else◌, leb, ltb, ◌&&◌, panic, Result, Never, err,
}
use bitchat_tui.Bytes.{Bytes}
use bitchat_tui.Packet.Padding.{pad_message_to_size, all_equal, unpad_message}

all_equal-replicate : (k n : ℕ) → all_equal n (replicate k n) ≡ true
unfolding all_equal
all_equal-replicate zero n = refl
all_equal-replicate (suc k) n = ground (arith, all_equal-replicate k n)

replicate_of_all_equal : (n : ℕ) (bs : Bytes) → all_equal n bs ≡ true → bs ≡ replicate (length bs) n
unfolding all_equal
replicate_of_all_equal n [] h = refl
replicate_of_all_equal n (b ∷ bs) h = ground (arith, replicate_of_all_equal n bs)

get_elem?-append_right :
    (xs ys : Bytes) (i j : ℕ) → j ≡ length xs + i → get_elem? (xs ++ ys) j ≡ get_elem? ys i
get_elem?-append_right [] ys i j h = ap (get_elem? ys) (omega arith)
get_elem?-append_right (x ∷ xs) ys i zero h = absurd (omega arith)
get_elem?-append_right (x ∷ xs) ys i (suc j) h = get_elem?-append_right xs ys i j (omega arith)

get_elem?-replicate : (k i n : ℕ) → i < k → get_elem? (replicate k n) i ≡ some n
get_elem?-replicate zero i n h = absurd (omega arith)
get_elem?-replicate (suc k) zero n h = refl
get_elem?-replicate (suc k) (suc i) n h = get_elem?-replicate k i n (omega arith)

pub pad_length :
    (bytes : Bytes) (target : ℕ)
    → length (pad_message_to_size bytes target) ≡ (
        if ltb (length bytes) target && leb (target - length bytes) 255
        then target
        else length bytes)
unfolding pad_message_to_size
pad_length bytes target =
    let needed = target - length bytes in
    ground (arith, length-append bytes (replicate needed needed), length-replicate needed needed)

-- Stripping a run of `k` bytes of value `k` gives back what stood before it.
pub unpad-append_replicate :
    (bytes : Bytes) (k : ℕ) → 0 < k → k ≤ 255 → unpad_message (bytes ++ replicate k k) ≡ ok bytes
unfolding unpad_message
unpad-append_replicate bytes k hk h =
    let whole = length (bytes ++ replicate k k) in
    let total : whole ≡ length bytes + k =
      omega (arith, length-append bytes (replicate k k), length-replicate k k) in
    let last : get_elem? (bytes ++ replicate k k) (whole - 1) ≡ some k =
      get_elem?-append_right bytes (replicate k k) (k - 1) (whole - 1) (omega arith)
      ∙ get_elem?-replicate k (k - 1) k (omega arith) in
    let start : whole - k ≡ length bytes = omega arith in
    ground (
      arith,
      drop-append_length (length bytes) bytes (replicate k k) refl,
      take-append_length (length bytes) bytes (replicate k k) refl,
      all_equal-replicate k k,
    )

-- Removing the padding that was added gives the bytes back.
pub unpad-pad_message :
    (bytes : Bytes) (target : ℕ)
    → length bytes < target
    → target - length bytes ≤ 255
    → unpad_message (pad_message_to_size bytes target) ≡ ok bytes
unfolding pad_message_to_size
unpad-pad_message bytes target h k =
    ground (arith, unpad-append_replicate bytes (target - length bytes))

get_elem?-total : (xs : Bytes) (i : ℕ) → i < length xs → (b : ℕ) × (get_elem? xs i ≡ some b)
get_elem?-total [] i h = absurd (omega arith)
get_elem?-total (x ∷ xs) zero h = (x, refl)
get_elem?-total (x ∷ xs) (suc i) h = get_elem?-total xs i (omega arith)

-- The index, the subtractions and the slices of `unpad_message` are in range.
unpad_ne_panic : (bytes : Bytes) → unpad_message bytes ≢ panic
unfolding unpad_message
unpad_ne_panic [] = ground arith
unpad_ne_panic (b ∷ bs) =
    let (k, last) = get_elem?-total (b ∷ bs) (length (b ∷ bs) - 1) (omega arith) in
    ground (arith, last)

ok_of_ne_panic : (r : Result Never Bytes) → r ≢ panic → (bytes : Bytes) × (r ≡ ok bytes)
ok_of_ne_panic (ok bytes) h = (bytes, refl)
ok_of_ne_panic (err never) h = elim never [ ]
ok_of_ne_panic panic h = absurd (h refl)

-- `unpad_message` returns, without a panic.
pub unpad_returns : (bytes : Bytes) → (unpadded : Bytes) × (unpad_message bytes ≡ ok unpadded)
unpad_returns bytes = ok_of_ne_panic (unpad_message bytes) (unpad_ne_panic bytes)
