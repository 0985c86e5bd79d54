-- ===== src/Packet/Version/Laws.antt =====
-- The negotiated version is the greatest common one.
use bitchat_tui.Base.{
  ℕ, ◌≤◌, ◌≡◌, ◌↔◌, refl, arith, [], ◌∷◌, List, true, ◌&&◌, none, some, ==_iff, ◌≢◌, Option-cases,
  inl, inr,
}
use bitchat_tui.Packet.Version.{contains, intersection, max_of, negotiate_version}

contains-intersection :
    (v : ℕ) (client server : List ℕ)
    → contains v (intersection client server) ≡ (contains v client && contains v server)
unfolding contains intersection
contains-intersection v [] server = refl
contains-intersection v (w ∷ client) server =
    ground (arith, ==_iff w v, contains-intersection v client server)

-- Among the versions of both sides, none of them greater.
pub record IsGreatestCommon (client server : List ℕ) (v : ℕ) : Type 0 where
  pub by_client : contains v client ≡ true
  pub by_server : contains v server ≡ true
  pub greatest : (w : ℕ) → contains w client ≡ true → contains w server ≡ true → w ≤ v

contains-max_of : (vs : List ℕ) (v : ℕ) → max_of vs ≡ some v → contains v vs ≡ true
unfolding max_of contains
contains-max_of [] v h = ground arith
contains-max_of (u ∷ vs) v h = ground (arith, contains-max_of vs v)

max_of_ne_none : (vs : List ℕ) (w : ℕ) → contains w vs ≡ true → max_of vs ≢ none
unfolding max_of contains
max_of_ne_none [] w h = ground arith
max_of_ne_none (u ∷ vs) w h = ground arith

max_of_le : (vs : List ℕ) (w v : ℕ) → contains w vs ≡ true → max_of vs ≡ some v → w ≤ v
unfolding max_of contains
max_of_le [] w v h e = ground arith
max_of_le (u ∷ vs) w v h e = grind (arith, max_of_ne_none vs w, max_of_le vs w)

-- The negotiated version is the greatest that both sides support, and there is one whenever they
-- have a version in common.
pub negotiate_version_lem :
    (client server : List ℕ) (v : ℕ)
    → (negotiate_version client server ≡ some v) ↔ IsGreatestCommon client server v
unfolding negotiate_version
negotiate_version_lem client server v = (
  λ e. (record {
    by_client = ground (
      arith,
      contains-max_of (intersection client server) v,
      contains-intersection v client server,
    );
    by_server = ground (
      arith,
      contains-max_of (intersection client server) v,
      contains-intersection v client server,
    );
    greatest = λ w hc hs.
        ground (
          arith,
          max_of_le (intersection client server) w v,
          contains-intersection w client server,
        );
  }),
  λ g. elim (Option-cases (max_of (intersection client server))) [
    | inr e ↦ absurd (
        ground (
          arith,
          max_of_ne_none (intersection client server) v,
          contains-intersection v client server,
          g.by_client,
          g.by_server,
        ))
    | inl (u, e) ↦ ground (
      arith,
      contains-max_of (intersection client server) u,
      max_of_le (intersection client server) v u,
      contains-intersection u client server,
      contains-intersection v client server,
      g.by_client,
      g.by_server,
      g.greatest u,
    )
  ],
)
