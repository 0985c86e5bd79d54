-- ===== src/Noise/Action.antt =====
-- Methods that take `&mut self` and return a `Result`: what was changed before an error stays
-- changed.
use bitchat_tui.Base.{Bool, Option, none, some, true, false, Result, ok, err, panic}
use bitchat_tui.Noise.Cipher.{NoiseError}

abbrev pub Action : Type 0 → Type 0 → Type 0
Action S A = S → S × Result NoiseError A

infixl 5 ◌>>=◌ ◌>>◌
abbrev pub ◌>>=◌ : {S A B : Type 0} → Action S A → (A → Action S B) → Action S B
◌>>=◌ m f s =
    let (s', r) = m s in elim r [ ok a ↦ f a s' | err e ↦ (s', err e) | panic ↦ (s', panic) ]

abbrev pub ◌>>◌ : {S B : Type 0} → Action S (Unit {0}) → Action S B → Action S B
m >> k = m >>= λ _. k

module _ {S : Type 0} where
  abbrev pub pure : {A : Type 0} → A → Action S A
  pure a s = (s, ok a)

  abbrev pub gets : {A : Type 0} → (S → A) → Action S A
  gets f s = (s, ok (f s))

  abbrev pub modify : (S → S) → Action S (Unit {0})
  modify f s = (f s, ok tt)

  abbrev pub raise : {A : Type 0} → NoiseError → Action S A
  raise e s = (s, err e)

  abbrev pub raise_if : Bool → NoiseError → Action S (Unit {0})
  raise_if true e s = (s, err e)
  raise_if false e s = (s, ok tt)

  -- `ok_or(e)?`
  abbrev pub or_raise : {A : Type 0} → NoiseError → Option A → Action S A
  or_raise e none = raise e
  or_raise e (some a) = pure a

  -- The method of a field.
  abbrev pub zoom : {T A : Type 0} → (S → T) → (T → S → S) → Action T A → Action S A
  zoom field set m s = let (t, r) = m (field s) in (set t s, r)
