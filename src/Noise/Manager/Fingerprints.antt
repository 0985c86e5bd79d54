-- ===== src/Noise/Manager/Fingerprints.antt =====
-- Who is known by which fingerprint.
use bitchat_tui.Base.{
  ◌≡◌, ◌≢◌, ◌↔◌, ◌∙◌, refl, arith, true, none, some, Option-cases, inl, inr, sym,
}
use bitchat_tui.Text.{Text}
use bitchat_tui.Maps.{bytes_eq, remove}
use bitchat_tui.Maps.Laws.{lookup-insert_self, lookup-insert_ne}
use bitchat_tui.Maps.Entries.{lookup-remove_ne, lookup-remove_self}
use bitchat_tui.Noise.Session.{NoiseSession}
use bitchat_tui.Noise.Manager.{
  NoiseSessionManager, noise_verified, get_peer_fingerprint, get_peer_id_for_fingerprint,
  is_fingerprint_verified, status_of, update_encryption_status, get_encryption_status,
}
use bitchat_tui.Noise.Manager.Sound.{IsSound}
use bitchat_tui.Noise.Manager.Sessions.{
  get_session, has_established_session, remove_session, migrate_fingerprints, migrate_session,
}

-- After `update_encryption_status` the peer's status is "verified" exactly when its session is
-- established and its fingerprint is known and in the set of verified fingerprints.
pub status_verified :
    (peer : Text) (m : NoiseSessionManager)
    → (get_encryption_status peer (update_encryption_status peer m) ≡ noise_verified) ↔ (
        (has_established_session peer m ≡ true)
        × ((fingerprint : Text) × (get_peer_fingerprint peer m ≡ some fingerprint)
            × (is_fingerprint_verified fingerprint m ≡ true)))
unfolding get_encryption_status update_encryption_status status_of has_established_session
status_verified peer m =
    let stored = lookup-insert_self peer (status_of peer m) m.peer_encryption_status in
    (
      λ h. elim (Option-cases (get_peer_fingerprint peer m)) [
        | inl (fingerprint, e) ↦ (ground (arith, stored), (fingerprint, e, ground (arith, stored)))
        | inr e ↦ absurd (ground (arith, stored))
      ],
      λ (done, (fingerprint, known, verified)). ground (arith, stored),
    )

-- In a sound manager, as every reachable one is, `remove_session` leaves the peer without a session and without a
-- fingerprint, and another peer keeps its session and its fingerprint.
pub remove_session-forgets :
    (m : NoiseSessionManager) (peer other : Text)
    → IsSound m
    → peer ≢ other
    → let m' = remove_session peer m in
      (get_session peer m' ≡ none)
      × (get_peer_fingerprint peer m' ≡ none)
      × (get_session other m' ≡ get_session other m)
      × (get_peer_fingerprint other m' ≡ get_peer_fingerprint other m)
unfolding remove_session get_session get_peer_fingerprint
remove_session-forgets m peer other h differs = (
  lookup-remove_self peer m.sessions h.one_session,
  lookup-remove_self peer m.peer_fingerprints h.one_fingerprint,
  lookup-remove_ne peer other m.sessions differs,
  lookup-remove_ne peer other m.peer_fingerprints differs,
)

-- In a sound manager, as every reachable one is, `migrate_session` moves a peer that has a session
-- and a fingerprint to another id: both are found under the new id, the fingerprint leads there, and
-- neither is found under the old one. The sessions and fingerprints of all other peers stay. The
-- encryption statuses are not moved: the old id keeps its status, and the new one gets none.
pub migrate_session-moves :
    (m : NoiseSessionManager) (old_id new_id other fingerprint : Text) (s : NoiseSession)
    → IsSound m
    → old_id ≢ new_id
    → other ≢ old_id
    → other ≢ new_id
    → get_session old_id m ≡ some s
    → get_peer_fingerprint old_id m ≡ some fingerprint
    → let m' = migrate_session old_id new_id m in
      (get_session new_id m' ≡ some s)
      × (get_peer_fingerprint new_id m' ≡ some fingerprint)
      × (get_peer_id_for_fingerprint fingerprint m' ≡ some new_id)
      × (get_session old_id m' ≡ none)
      × (get_peer_fingerprint old_id m' ≡ none)
      × (get_session other m' ≡ get_session other m)
      × (get_peer_fingerprint other m' ≡ get_peer_fingerprint other m)
      × (get_encryption_status old_id m' ≡ get_encryption_status old_id m)
      × (get_encryption_status new_id m' ≡ get_encryption_status new_id m)
unfolding migrate_session migrate_fingerprints get_session get_peer_fingerprint
    get_peer_id_for_fingerprint get_encryption_status
migrate_session-moves m old_id new_id other fingerprint s h differs not_old not_new there known =
    let new_old : new_id ≢ old_id = λ e. differs (sym e) in
    let old_other : old_id ≢ other = λ e. not_old (sym e) in
    let new_other : new_id ≢ other = λ e. not_new (sym e) in
    let sessions = remove old_id m.sessions in
    let fingerprints = remove old_id m.peer_fingerprints in
    rw (migrate_session, there, migrate_fingerprints, known)
      (
        lookup-insert_self new_id s sessions,
        lookup-insert_self new_id fingerprint fingerprints,
        lookup-insert_self fingerprint new_id m.fingerprint_to_peer_id,
        lookup-insert_ne new_id old_id s sessions new_old
            ∙ lookup-remove_self old_id m.sessions h.one_session,
        lookup-insert_ne new_id old_id fingerprint fingerprints new_old
            ∙ lookup-remove_self old_id m.peer_fingerprints h.one_fingerprint,
        lookup-insert_ne new_id other s sessions new_other
            ∙ lookup-remove_ne old_id other m.sessions old_other,
        lookup-insert_ne new_id other fingerprint fingerprints new_other
            ∙ lookup-remove_ne old_id other m.peer_fingerprints old_other,
        refl,
        refl,
      )
