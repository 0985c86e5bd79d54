-- ===== src/App/Status.antt =====
-- The status of a direct message only rises.
use bitchat_tui.Base.{
  ℕ, zero, suc, ◌≤◌, ◌≡◌, refl, arith, [], ◌∷◌, List, true, Option, none, some, get_elem?,
  Option-cases, Bool-cases, inl, inr,
}
use bitchat_tui.Text.{Text}
use bitchat_tui.Maps.{bytes_eq, bytes_beq, lookup}
use bitchat_tui.App.{
  App, Message, MessageStatus, no_status, sending, delivered, read_status, failed_status,
}
use bitchat_tui.App.Messages.{
  should_apply_dm_status, has_local_id, apply_status, update_first, update_threads,
  update_dm_message_status,
}

abbrev pub level : MessageStatus → ℕ
level no_status = 0
level sending = 0
level failed_status = 1
level delivered = 2
level read_status = 3

-- A message is what it was, but for a status that is as high or higher.
pub record IsRaised (a b : Message) : Type 0 where
  pub raised : level a.status ≤ level b.status
  pub same : b ≡ record a { status = b.status }

-- The message at a place of a conversation.
abbrev pub message_at : Text → ℕ → List (Text × List Message) → Option Message
message_at key k m = elim (lookup key m) [ none ↦ none | some messages ↦ get_elem? messages k ]

applied_level : (s t : MessageStatus) → should_apply_dm_status s t ≡ true → level s ≤ level t
unfolding should_apply_dm_status
applied_level s t h = ground arith

apply-IsRaised : (next : MessageStatus) (a : Message) → IsRaised a (apply_status next a)
unfolding apply_status
apply-IsRaised next a = elim (Bool-cases (should_apply_dm_status a.status next)) [
  | inl applied ↦
      rw (apply_status, applied)
        (record { raised = applied_level a.status next applied; same = refl })
  | inr refused ↦ rw (apply_status, refused) (record { raised = omega arith; same = refl })
]

kept-IsRaised : (a : Message) → IsRaised a a
kept-IsRaised a = record { raised = omega arith; same = refl }

first-IsRaised :
    (id : Text) (next : MessageStatus) (messages messages' : List Message) (k : ℕ) (a : Message)
    → update_first id next messages ≡ some messages'
    → get_elem? messages k ≡ some a
    → (b : Message) × (get_elem? messages' k ≡ some b) × IsRaised a b
unfolding update_first
first-IsRaised id next [] messages' k a e h = absurd (ground (arith, e))
first-IsRaised id next (x ∷ messages) messages' zero a e h =
    let found : x ≡ a = ground (arith, h) in
    elim (Bool-cases (has_local_id id x)) [
      | inl mine ↦
          (apply_status next x, ground (arith, mine, e), rw (← found) (apply-IsRaised next x))
      | inr other ↦ elim (Option-cases (update_first id next messages)) [
        | inr none_there ↦ absurd (ground (arith, e, other, none_there))
        | inl (rest, there) ↦ (x, ground (arith, e, other, there), rw (← found) (kept-IsRaised x))
      ]
    ]
first-IsRaised id next (x ∷ messages) messages' (suc k) a e h =
    elim (Bool-cases (has_local_id id x)) [
      | inl mine ↦
          let changed : messages' ≡ apply_status next x ∷ messages = ground (arith, mine, e) in
          (a, rw changed h, kept-IsRaised a)
      | inr other ↦ elim (Option-cases (update_first id next messages)) [
        | inr none_there ↦ absurd (ground (arith, e, other, none_there))
        | inl (rest, there) ↦
            let changed : messages' ≡ x ∷ rest = ground (arith, e, other, there) in
            let (b, found, raised) = first-IsRaised id next messages rest k a there h in
            (b, rw changed found, raised)
      ]
    ]

threads-IsRaised :
    (id : Text) (next : MessageStatus) (m : List (Text × List Message)) (key : Text) (k : ℕ)
    (a : Message)
    → message_at key k m ≡ some a
    → (b : Message) × (message_at key k (update_threads id next m).0 ≡ some b) × IsRaised a b
unfolding update_threads lookup
threads-IsRaised id next [] key k a h = absurd (ground (arith, h))
threads-IsRaised id next ((j, messages) ∷ m) key k a h =
    elim (Option-cases (update_first id next messages)) [
      | inr absent ↦ elim (Bool-cases (bytes_beq j key)) [
        | inl this ↦ (a, ground (arith, h, this, absent), kept-IsRaised a)
        | inr other ↦
            let (b, found, raised) =
              threads-IsRaised id next m key k a (ground (arith, h, other)) in
            (b, ground (arith, found, other, absent), raised)
      ]
      | inl (messages', there) ↦ elim (Bool-cases (bytes_beq j key)) [
        | inl this ↦
            let (b, found, raised) =
              first-IsRaised id next messages messages' k a there (ground (arith, h, this)) in
            (b, ground (arith, found, this, there), raised)
        | inr other ↦ (a, ground (arith, h, other, there), kept-IsRaised a)
      ]
    ]

-- Calls for several messages, each with its status.
abbrev pub update_all : List (Text × MessageStatus) → App → App
update_all [] app = app
update_all ((local_id, next) ∷ updates) app =
    update_all updates (update_dm_message_status local_id next app).0

-- Whatever status reports come, in whatever order and however often, a direct message stays in its
-- place, only its status changes, and it never falls: from delivered or read it does not go back to
-- sending or failed, and from read it does not go back to delivered.
pub update_all-IsRaised :
    (updates : List (Text × MessageStatus)) (app : App) (key : Text) (k : ℕ) (a : Message)
    → message_at key k app.dm_messages ≡ some a
    → (b : Message) × (message_at key k (update_all updates app).dm_messages ≡ some b)
      × IsRaised a b
unfolding update_dm_message_status
update_all-IsRaised [] app key k a h = (a, h, kept-IsRaised a)
update_all-IsRaised ((local_id, next) ∷ updates) app key k a h =
    let (b, there, up) = threads-IsRaised local_id next app.dm_messages key k a h in
    let (c, found, more) =
      update_all-IsRaised updates (update_dm_message_status local_id next app).0 key k b there in
    (
      c,
      found,
      record {
        raised = omega (arith, up.raised, more.raised);
        same = rw (more.same, up.same) refl;
      },
    )
