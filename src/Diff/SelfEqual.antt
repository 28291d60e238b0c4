-- ===== src/Diff/SelfEqual.antt =====
-- The walks over two lists, on a list and itself. The comparisons of the children are hypotheses here.
use stellar_xdr_lens.Prelude.{
  ◌≡◌, ◌&&◌, ◌∷◌, suc, [], true, some, refl, List, Text, ℕ, Bool-cases, text_eq_refl, inl, inr,
  append-nil,
}
use stellar_xdr_lens.Tree.Value.{GoLib, Node}
use stellar_xdr_lens.Diff.Change.{DiffOptions, at_index}
use stellar_xdr_lens.Diff.Children.{
  diff_aligned, diff_lists, diff_positions, same_child, Child, fits_alignment,
}
use stellar_xdr_lens.Diff.Collections.{
  diff_event_lists, diff_operation_lists, topics_match, unmatched_left, unmatched_right,
  diff_unpaired_left, reorders, diff_pairs, diff_unmatched, diff_unpaired_right, sort_changes,
  LeftItem, changes_of, RightItem,
}
use stellar_xdr_lens.Diff.Greedy.{pair_up, indexed_from, take_match, pair_up-head}
use stellar_xdr_lens.Diff.Events.{same_topics}
use stellar_xdr_lens.Diff.Reflexive.{same_node_refl}
use stellar_xdr_lens.Lcs.Table.{step_right, step_down}

module _ (go : GoLib) (o : DiffOptions go.F) where
  -- Each left child is the right child at its place, and comparing them changes nothing.
  abbrev pub Selves : List (Child go o) → List (Node go.F) → Type 0
  Selves [] [] = Unit
  Selves [] (b ∷ bs) = ⊥
  Selves (k ∷ ks) [] = ⊥
  Selves (k ∷ ks) (b ∷ bs) =
      ((path : Text) → k.compare (some b) path ≡ []) × (k.child_node ≡ b) × Selves ks bs

  same_child_self : (k : Child go o) (b : Node go.F) → k.child_node ≡ b → same_child go o k b ≡ true
  unfolding same_child
  same_child_self k b e = rw (e, same_node_refl go o b)

  diff_positions_self :
      (path : Text) (i : ℕ) (ks : List (Child go o)) (bs : List (Node go.F))
      → Selves ks bs
      → diff_positions go o path i ks bs ≡ []
  unfolding diff_positions
  diff_positions_self path i [] [] h = refl
  diff_positions_self path i [] (b ∷ bs) h = absurd h
  diff_positions_self path i (k ∷ ks) [] h = absurd h
  diff_positions_self path i (k ∷ ks) (b ∷ bs) (equal, is_b, rest) =
      rw (equal (at_index path i), diff_positions_self path (suc i) ks bs rest)

  diff_aligned_self :
      (path : Text) (rows : List (List ℕ)) (i j : ℕ) (ks : List (Child go o))
      (bs : List (Node go.F))
      → Selves ks bs
      → diff_aligned go o path rows i j ks bs ≡ []
  unfolding diff_aligned
  diff_aligned_self path rows i j [] [] h = refl
  diff_aligned_self path rows i j [] (b ∷ bs) h = absurd h
  diff_aligned_self path rows i j (k ∷ ks) [] h = absurd h
  diff_aligned_self path rows i j (k ∷ ks) (b ∷ bs) (equal, is_b, rest) = rw (
    same_child_self k b is_b,
    equal (at_index path j),
    diff_aligned_self path (step_right (step_down rows)) (suc i) (suc j) ks bs rest,
  )

  pub diff_lists_self :
      (ks : List (Child go o)) (bs : List (Node go.F)) (path : Text)
      → Selves ks bs
      → diff_lists go o ks bs path ≡ []
  unfolding diff_lists
  diff_lists_self ks bs path h = elim (Bool-cases (o.align_lists && fits_alignment go o ks bs)) [
    | inl e ↦ rw (e, diff_aligned_self path _ 0 0 ks bs h)
    | inr e ↦ rw (e, diff_positions_self path 0 ks bs h)
  ]

  unmatched_left_self :
      (i : ℕ) (ks : List (Child go o)) (bs : List (Node go.F))
      → Selves ks bs
      → unmatched_left go o i ks bs ≡ []
  unfolding unmatched_left
  unmatched_left_self i [] [] h = refl
  unmatched_left_self i [] (b ∷ bs) h = absurd h
  unmatched_left_self i (k ∷ ks) [] h = absurd h
  unmatched_left_self i (k ∷ ks) (b ∷ bs) (equal, is_b, rest) =
      rw (same_child_self k b is_b, unmatched_left_self (suc i) ks bs rest)

  unmatched_right_self :
      (i : ℕ) (ks : List (Child go o)) (bs : List (Node go.F))
      → Selves ks bs
      → unmatched_right go o i ks bs ≡ []
  unfolding unmatched_right indexed_from
  unmatched_right_self i [] [] h = refl
  unmatched_right_self i [] (b ∷ bs) h = absurd h
  unmatched_right_self i (k ∷ ks) [] h = absurd h
  unmatched_right_self i (k ∷ ks) (b ∷ bs) (equal, is_b, rest) =
      rw (same_child_self k b is_b, unmatched_right_self (suc i) ks bs rest)

  pub diff_operation_lists_self :
      (ks : List (Child go o)) (bs : List (Node go.F)) (path : Text)
      → Selves ks bs
      → diff_operation_lists go o ks bs path ≡ []
  unfolding diff_operation_lists pair_up reorders diff_unmatched sort_changes changes_of
  diff_operation_lists_self ks bs path h =
      rw (unmatched_left_self 0 ks bs h, unmatched_right_self 0 ks bs h)

  topics_match_self :
      (i : ℕ) (k : Child go o) (b : Node go.F)
      → k.child_node ≡ b
      → topics_match go o (i, k) (i, b) ≡ true
  unfolding topics_match same_topics
  topics_match_self i k b e = rw (e, text_eq_refl _, text_eq_refl _)

  -- Each event is paired with itself, in order.
  self_pairs :
      (path : Text) (i : ℕ) (ks : List (Child go o)) (bs : List (Node go.F))
      → Selves ks bs
      → (pairs : List (LeftItem go o × RightItem go o)) × (pair_up
            (topics_match go o)
            (indexed_from i ks)
            (indexed_from i bs)
          ≡ record { pairs = pairs; lefts = []; rights = [] })
        × (diff_pairs go o path pairs ≡ [])
  unfolding pair_up indexed_from diff_pairs take_match
  self_pairs path i [] [] h = ([], refl, refl)
  self_pairs path i [] (b ∷ bs) h = absurd h
  self_pairs path i (k ∷ ks) [] h = absurd h
  self_pairs path i (k ∷ ks) (b ∷ bs) (equal, is_b, rest) =
      let (pairs, paired, same) = self_pairs path (suc i) ks bs rest in
      (
        ((i, k), (i, b)) ∷ pairs,
        pair_up-head (topics_match go o) (i, k) _ (i, b) _ _ (topics_match_self i k b is_b) paired,
        rw (equal (at_index path i), same),
      )

  pub diff_event_lists_self :
      (ks : List (Child go o)) (bs : List (Node go.F)) (path : Text)
      → Selves ks bs
      → diff_event_lists go o ks bs path ≡ []
  unfolding diff_event_lists diff_unpaired_left diff_unpaired_right pair_up
  diff_event_lists_self ks bs path h =
      let (pairs, paired, same) = self_pairs path 0 ks bs h in rw (paired, append-nil pairs, same)
