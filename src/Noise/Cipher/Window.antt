-- ===== src/Noise/Cipher/Window.antt =====
-- The sliding window against the whole history of received nonces.
use bitchat_tui.Base.{
  ℕ, ◌+◌, ◌≤◌, ◌<◌, ◌≡◌, refl, arith, [], ◌∷◌, List, Bool, true, false, ◌||◌, ◌&&◌, ltb, leb, ◌==◌,
  not, max,
}
use bitchat_tui.Noise.Cipher.{
  NoiseCipherState, contains, retain_recent, insert_nonce, is_valid_nonce, mark_nonce_as_seen,
}

contains-retain_recent :
    (received n : ℕ) (window : List ℕ)
    → contains (retain_recent received window) n ≡ (contains window n && ltb received (n + 1024))
unfolding contains retain_recent
contains-retain_recent received n [] = refl
contains-retain_recent received n (m ∷ window) =
    ground (arith, contains-retain_recent received n window)

contains-insert_nonce :
    (m n : ℕ) (window : List ℕ) → contains (insert_nonce m window) n ≡ (m == n || contains window n)
unfolding contains insert_nonce
contains-insert_nonce m n window = ground arith

mark_highest :
    (s : NoiseCipherState) (m : ℕ)
    → (mark_nonce_as_seen m s).highest_received_nonce ≡ max s.highest_received_nonce m
unfolding mark_nonce_as_seen
mark_highest s m = ground arith

-- The window keeps what it had, less what a higher nonce has made too old, and the new nonce. A
-- forward jump of 1024 or more clears it; `h` says that it held nothing above the highest nonce.
mark_window :
    (s : NoiseCipherState) (m n : ℕ)
    → (contains s.replay_window n ≡ true → n ≤ s.highest_received_nonce)
    → contains (mark_nonce_as_seen m s).replay_window n ≡ (
        m == n
        || (contains s.replay_window n && (leb m s.highest_received_nonce || ltb m (n + 1024))))
unfolding mark_nonce_as_seen contains
mark_window s m n h = ground (
  arith,
  contains-insert_nonce m n s.replay_window,
  contains-insert_nonce m n [],
  contains-insert_nonce m n (retain_recent m s.replay_window),
  contains-retain_recent m n s.replay_window,
)

-- The window holds no nonce above the highest one, and none that is 1024 or more behind it.
pub record InWindow (s : NoiseCipherState) : Type 0 where
  pub below : (n : ℕ) → contains s.replay_window n ≡ true → n ≤ s.highest_received_nonce
  pub recent : (n : ℕ) → contains s.replay_window n ≡ true → s.highest_received_nonce < n + 1024

-- What is refused stays refused, whatever is marked.
pub is_valid_nonce-mark :
    (s : NoiseCipherState) (m n : ℕ)
    → InWindow s
    → is_valid_nonce s n ≡ false
    → is_valid_nonce (mark_nonce_as_seen m s) n ≡ false
unfolding is_valid_nonce
is_valid_nonce-mark s m n w h = ground (arith, mark_highest s m, mark_window s m n (w.below n))

-- A nonce that has been marked is refused.
pub is_valid_nonce-mark_self :
    (s : NoiseCipherState) (n : ℕ) → InWindow s → is_valid_nonce (mark_nonce_as_seen n s) n ≡ false
unfolding is_valid_nonce
is_valid_nonce-mark_self s n w = ground (arith, mark_highest s n, mark_window s n n (w.below n))

pub mark-InWindow :
    (s : NoiseCipherState) (m : ℕ)
    → is_valid_nonce s m ≡ true
    → InWindow s
    → InWindow (mark_nonce_as_seen m s)
unfolding is_valid_nonce
mark-InWindow s m valid w = record {
  below = λ n h. ground (arith, mark_highest s m, mark_window s m n (w.below n), w.below n);
  recent = λ n h. ground (arith, mark_highest s m, mark_window s m n (w.below n), w.recent n);
}

-- The history of the nonces that were accepted, the last first, and its highest.
abbrev pub highest_of : List ℕ → ℕ
highest_of [] = 0
highest_of (n ∷ history) = max (highest_of history) n

abbrev pub elem : ℕ → List ℕ → Bool
elem n [] = false
elem n (m ∷ history) = m == n || elem n history

-- The state `s` stands for the history.
pub record Tracks (s : NoiseCipherState) (history : List ℕ) : Type 0 where
  pub highest : s.highest_received_nonce ≡ highest_of history
  pub window :
      (n : ℕ) → contains s.replay_window n ≡ (elem n history && ltb (highest_of history) (n + 1024))

elem_le : (n : ℕ) (history : List ℕ) → elem n history ≡ true → n ≤ highest_of history
elem_le n [] h = cc
elem_le n (m ∷ history) h = ground (arith, elem_le n history)

pub mark-Tracks :
    (s : NoiseCipherState) (history : List ℕ) (m : ℕ)
    → is_valid_nonce s m ≡ true
    → Tracks s history
    → Tracks (mark_nonce_as_seen m s) (m ∷ history)
unfolding is_valid_nonce
mark-Tracks s history m valid t = record {
  highest = ground (arith, mark_highest s m);
  window = λ n. ground (arith, mark_window s m n, t.window n, elem_le n history);
}

-- The window of 1024 nonces decides as the whole history would: a nonce is accepted exactly when
-- it was not accepted before and is less than 1024 behind the highest one.
pub is_valid_nonce-Tracks :
    (s : NoiseCipherState) (history : List ℕ) (n : ℕ)
    → Tracks s history
    → is_valid_nonce s n ≡ (not (elem n history) && ltb (highest_of history) (n + 1024))
unfolding is_valid_nonce
is_valid_nonce-Tracks s history n t = ground (arith, t.window n, elem_le n history)
