-- ===== src/Fragments/Reassembly.antt =====
-- What the collector makes of the fragments of one message, in any order and with repetitions.
use bitchat_tui.Base.{
  ℕ, ◌<◌, ◌≡◌, ◌≢◌, refl, ◌∙◌, arith, [], ◌∷◌, ◌++◌, List, true, false, ◌||◌, none, some, length,
  All, All-append, append-nil, append_assoc,
}
use bitchat_tui.Bytes.{Bytes}
use bitchat_tui.Text.{Text}
use bitchat_tui.Hex.{hex_encode}
use bitchat_tui.Maps.{lookup, insert, contains_key, nat_eq, bytes_eq}
use bitchat_tui.Maps.Laws.{lookup-insert_self, insert-insert, remove-insert_new}
use bitchat_tui.Fragments.{FragmentCollector, assemble, sender_of, store_fragment, add_fragment}
use bitchat_tui.Fragments.Fill.{
  elem, fill, fill-append, chunks_from, elem-append, length-fill-ne, fill_complete,
}

-- No message with this id is under way.
pub record IsIdle (id : Bytes) (c : FragmentCollector) : Type 0 where
  pub fragments : lookup (hex_encode id) c.fragments ≡ none
  pub metadata : lookup (hex_encode id) c.metadata ≡ none

module _ (id : Bytes) (n original_type : ℕ) (sender : Text) (chunk : ℕ → Bytes) where
  -- The fragments of a message of `n` chunks come in the order of the list; the result is the
  -- collector and the messages that `add_fragment` has returned.
  unfoldable pub feed : List ℕ → FragmentCollector → FragmentCollector × List (Bytes × Text)
  feed [] c = (c, [])
  feed (i ∷ is) c =
      let (c', done) = add_fragment id i n original_type (chunk i) sender c in
      let (c'', rest) = feed is c' in
      (c'', elim done [ none ↦ rest | some message ↦ message ∷ rest ])

  -- The collector `c`, idle for the id, after the indices `seen`.
  abbrev busy : FragmentCollector → List ℕ → FragmentCollector
  busy c seen = record {
    fragments = insert (hex_encode id) (fill chunk seen []) c.fragments;
    metadata = insert (hex_encode id) (n, original_type, sender) c.metadata;
  }

  -- The first fragment opens the entry.
  add_first :
      (c : FragmentCollector) (i : ℕ)
      → IsIdle id c
      → add_fragment id i n original_type (chunk i) sender c
        ≡ store_fragment (hex_encode id) i n (chunk i) [] (busy c [])
  unfolding add_fragment contains_key
  add_first c i h = ground (arith, lookup-insert_self (hex_encode id) [] c.fragments)

  -- A later one finds it.
  add_next :
      (c : FragmentCollector) (seen : List ℕ) (i : ℕ)
      → add_fragment id i n original_type (chunk i) sender (busy c seen)
        ≡ store_fragment (hex_encode id) i n (chunk i) (fill chunk seen []) (busy c seen)
  unfolding add_fragment contains_key
  add_next c seen i =
      ground (arith, lookup-insert_self (hex_encode id) (fill chunk seen []) c.fragments)

  store_incomplete :
      (c : FragmentCollector) (seen : List ℕ) (i : ℕ)
      → length (fill chunk (seen ++ (i ∷ [])) []) ≢ n
      → store_fragment (hex_encode id) i n (chunk i) (fill chunk seen []) (busy c seen)
        ≡ (busy c (seen ++ (i ∷ [])), none)
  unfolding store_fragment
  store_incomplete c seen i h = ground (
    arith,
    fill-append chunk seen (i ∷ []) [],
    insert-insert (hex_encode id) (fill chunk seen []) (insert i (chunk i) (fill chunk seen []))
        c.fragments,
  )

  store_complete :
      (c : FragmentCollector) (seen : List ℕ) (i : ℕ)
      → IsIdle id c
      → length (fill chunk (seen ++ (i ∷ [])) []) ≡ n
      → assemble n 0 (fill chunk (seen ++ (i ∷ [])) []) [] ≡ some (chunks_from chunk n 0)
      → store_fragment (hex_encode id) i n (chunk i) (fill chunk seen []) (busy c seen)
        ≡ (c, some (chunks_from chunk n 0, sender))
  unfolding store_fragment sender_of
  store_complete c seen i idle h a = ground (
    arith,
    fill-append chunk seen (i ∷ []) [],
    insert-insert (hex_encode id) (fill chunk seen []) (insert i (chunk i) (fill chunk seen []))
        c.fragments,
    remove-insert_new (hex_encode id) (insert i (chunk i) (fill chunk seen [])) c.fragments,
    remove-insert_new (hex_encode id) (n, original_type, sender) c.metadata,
    lookup-insert_self (hex_encode id) (n, original_type, sender) c.metadata,
  )

  feed_rest :
      (c : FragmentCollector) (last : ℕ) (seen front : List ℕ)
      → IsIdle id c
      → last < n
      → All (λ i. i < n) seen
      → All (λ i. i < n) front
      → elem last seen ≡ false
      → elem last front ≡ false
      → ((i : ℕ) → i < n → i ≢ last → (elem i seen || elem i front) ≡ true)
      → feed (front ++ (last ∷ [])) (busy c seen) ≡ (c, (chunks_from chunk n 0, sender) ∷ [])
  unfolding feed
  feed_rest c last seen [] idle lt bs bf ns nf cover =
      let whole = seen ++ (last ∷ []) in
      let (size, joined) =
        fill_complete chunk n whole (All-append (λ i. i < n) seen (last ∷ []) bs (lt, tt))
          (λ i h. ground (arith, elem-append i seen (last ∷ []), cover i h)) in
      ground (arith, add_next c seen last, store_complete c seen last idle size joined)
  feed_rest c last seen (i ∷ front) idle lt bs (bi, bf) ns nf cover =
      let seen' = seen ++ (i ∷ []) in
      let bs' = All-append (λ i. i < n) seen (i ∷ []) bs (bi, tt) in
      let ns' : elem last seen' ≡ false = ground (arith, elem-append last seen (i ∷ [])) in
      let short = length-fill-ne chunk n seen' bs' last lt ns' in
      let rest =
        feed_rest c last seen' front idle lt bs' bf ns' (ground arith)
          (λ j h ne. ground (arith, elem-append j seen (i ∷ []), cover j h ne)) in
      ground (arith, add_next c seen i, store_incomplete c seen i short, rest)

  feed_open :
      (c : FragmentCollector) (i : ℕ) (is : List ℕ)
      → IsIdle id c
      → feed (i ∷ is) c ≡ feed (i ∷ is) (busy c [])
  unfolding feed
  feed_open c i is idle = ground (arith, add_first c i idle, add_next c [] i)

  -- From an idle collector: if the last fragment to come is the only one that was missing, in
  -- whatever order the others came and however often, exactly one message is returned, when the
  -- last fragment comes. It is the chunks in order, with the sender, and the collector is again
  -- what it was before the first fragment.
  pub feed_lem :
      (c : FragmentCollector) (front : List ℕ) (last : ℕ)
      → IsIdle id c
      → last < n
      → All (λ i. i < n) front
      → elem last front ≡ false
      → ((i : ℕ) → i < n → i ≢ last → elem i front ≡ true)
      → feed (front ++ (last ∷ [])) c ≡ (c, (chunks_from chunk n 0, sender) ∷ [])
  feed_lem c [] last idle lt below missing cover =
      feed_open c last [] idle ∙ feed_rest c last [] [] idle lt tt tt refl missing cover
  feed_lem c (i ∷ front) last idle lt below missing cover =
      feed_open c i (front ++ (last ∷ [])) idle
      ∙ feed_rest c last [] (i ∷ front) idle lt tt below refl missing cover

  -- While an index is missing nothing is returned, and the entry for the id holds what has come.
  feed-busy :
      (c : FragmentCollector) (seen front : List ℕ) (last : ℕ)
      → last < n
      → All (λ i. i < n) seen
      → All (λ i. i < n) front
      → elem last seen ≡ false
      → elem last front ≡ false
      → feed front (busy c seen) ≡ (busy c (seen ++ front), [])
  unfolding feed
  feed-busy c seen [] last lt bs bf ns nf = ground (arith, append-nil seen)
  feed-busy c seen (i ∷ front) last lt bs (bi, bf) ns nf =
      let seen' = seen ++ (i ∷ []) in
      let bs' = All-append (λ i. i < n) seen (i ∷ []) bs (bi, tt) in
      let ns' : elem last seen' ≡ false = ground (arith, elem-append last seen (i ∷ [])) in
      ground (
        arith,
        add_next c seen i,
        store_incomplete c seen i (length-fill-ne chunk n seen' bs' last lt ns'),
        feed-busy c seen' front last lt bs' bf ns' (ground arith),
        append_assoc seen (i ∷ []) front,
      )

  -- With a fragment missing, no message is returned.
  pub feed_incomplete :
      (c : FragmentCollector) (front : List ℕ) (last : ℕ)
      → IsIdle id c
      → last < n
      → All (λ i. i < n) front
      → elem last front ≡ false
      → (feed front c).1 ≡ []
  unfolding feed
  feed_incomplete c [] last idle lt below missing = refl
  feed_incomplete c (i ∷ front) last idle lt below missing =
      ground
        (arith, feed_open c i front idle, feed-busy c [] (i ∷ front) last lt tt below refl missing)
