-- ===== src/Diff/Shape/Collected.antt =====
-- The same for the lists that are matched before they are compared.
use stellar_xdr_lens.Prelude.{
  ◌∷◌, suc, [], none, some, Bool, All, List, Option, Text, ℕ, All-append, if-holds, map, leb, Each,
  Each-append, each_more, each_none,
}
use stellar_xdr_lens.Tree.Value.{GoLib, Node}
use stellar_xdr_lens.Diff.Change.{DiffOptions, Change, at_index}
use stellar_xdr_lens.Diff.Greedy.{Paired, pair_found, pair_up, indexed_from, take_match}
use stellar_xdr_lens.Diff.Collections.{
  LeftItem, at_position, changes_of, diff_event_lists, diff_operation_lists, diff_pairs,
  diff_unmatched, diff_unpaired_left, diff_unpaired_right, insert_change, reorders, sort_changes,
  unmatched_left, IndexedChange, reorder_change, RightItem, same_body, topics_match,
  primary_topics_match, unmatched_right,
}
use stellar_xdr_lens.Diff.Children.{Child, same_child}
use stellar_xdr_lens.Diff.Shape.{ShapedChild, AllShaped, IsShaped, diff_added-IsShaped}

module _ {ℓ κ ι} {A : Type ℓ} {B : Type κ} (match : A → B → Bool) (P : A → Type ι) where
  -- What holds of every left item holds of those in pairs and of those left over.
  abbrev pub KeptLeft : Paired A B → Type ι
  KeptLeft r = All (λ q. P q.0) r.pairs × All P r.lefts

  found_keeps :
      (go_on : List B → Paired A B) (x : A) (ys : List B) (found : Option (B × List B))
      → P x
      → ((zs : List B) → KeptLeft (go_on zs))
      → KeptLeft (pair_found match go_on x ys found)
  unfolding pair_found
  found_keeps go_on x ys none px h = ((h ys).0, (px, (h ys).1))
  found_keeps go_on x ys (some (y, others)) px h = ((px, (h others).0), (h others).1)

  pub pair_up_keeps : (xs : List A) (ys : List B) → All P xs → KeptLeft (pair_up match xs ys)
  unfolding pair_up
  pair_up_keeps [] ys h = (tt, tt)
  pair_up_keeps (x ∷ xs) ys (px, h) =
      found_keeps (λ zs. pair_up match xs zs) x ys (take_match match x ys) px
        (λ zs. pair_up_keeps xs zs h)

module _ (go : GoLib) (o : DiffOptions go.F) where
  abbrev ShapedItem : LeftItem go o → Type 0
  ShapedItem q = ShapedChild go o q.1

  abbrev IndexedShaped : List (IndexedChange go.F) → Type 0
  IndexedShaped cs = Each (λ c. IsShaped c.change) cs

  indexed_items :
      (i : ℕ) (ks : List (Child go o))
      → All (ShapedChild go o) ks
      → All ShapedItem (indexed_from i ks)
  unfolding indexed_from
  indexed_items i [] h = tt
  indexed_items i (k ∷ ks) (hk, h) = (hk, indexed_items (suc i) ks h)

  unmatched_items :
      (i : ℕ) (ks : List (Child go o)) (bs : List (Node go.F))
      → All (ShapedChild go o) ks
      → All ShapedItem (unmatched_left go o i ks bs)
  unfolding unmatched_left
  unmatched_items i [] bs h = tt
  unmatched_items i (k ∷ ks) [] h = indexed_items i (k ∷ ks) h
  unmatched_items i (k ∷ ks) (b ∷ bs) (hk, h) =
      let rest = unmatched_items (suc i) ks bs h in
      if-holds (λ xs. All ShapedItem xs) (same_child go o k b) rest (hk, rest)

  insert_change-IsShaped :
      (c : IndexedChange go.F) (cs : List (IndexedChange go.F))
      → IsShaped c.change
      → IndexedShaped cs
      → IndexedShaped (insert_change c cs)
  unfolding insert_change
  insert_change-IsShaped c [] hc h = each_more hc each_none
  insert_change-IsShaped c (d ∷ ds) hc (each_more hd h) =
      if-holds IndexedShaped (leb c.position d.position) (each_more hc (each_more hd h))
        (each_more hd (insert_change-IsShaped c ds hc h))

  sorted_changes :
      (cs : List (IndexedChange go.F)) → IndexedShaped cs → IndexedShaped (sort_changes cs)
  unfolding sort_changes
  sorted_changes [] h = each_none
  sorted_changes (d ∷ ds) (each_more hd h) =
      insert_change-IsShaped d (sort_changes ds) hd (sorted_changes ds h)

  changes_of-IsShaped :
      (cs : List (IndexedChange go.F)) → IndexedShaped cs → AllShaped (changes_of cs)
  unfolding changes_of
  changes_of-IsShaped [] h = each_none
  changes_of-IsShaped (d ∷ ds) (each_more hd h) = each_more hd (changes_of-IsShaped ds h)

  at_position-IsShaped :
      (i : ℕ) (cs : List (Change go.F)) → AllShaped cs → IndexedShaped (map (at_position i) cs)
  unfolding at_position
  at_position-IsShaped i [] h = each_none
  at_position-IsShaped i (c ∷ cs) (each_more hc h) = each_more hc (at_position-IsShaped i cs h)

  reorders-IsShaped :
      (path : Text) (pairs : List (LeftItem go o × RightItem go o))
      → IndexedShaped (reorders go o path pairs)
  unfolding reorders at_position reorder_change
  reorders-IsShaped path [] = each_none
  reorders-IsShaped path (((i, k), (j, b)) ∷ pairs) = each_more tt (reorders-IsShaped path pairs)

  diff_unmatched-IsShaped :
      (path : Text) (ks : List (LeftItem go o)) (bs : List (RightItem go o))
      → All ShapedItem ks
      → IndexedShaped (diff_unmatched go o path ks bs)
  unfolding diff_unmatched
  diff_unmatched-IsShaped path [] [] h = each_none
  diff_unmatched-IsShaped path [] ((j, b) ∷ bs) h =
      Each-append (at_position-IsShaped j _ (diff_added-IsShaped go o b (at_index path j)))
        (diff_unmatched-IsShaped path [] bs h)
  diff_unmatched-IsShaped path ((i, k) ∷ ks) [] (hk, h) =
      Each-append (at_position-IsShaped i _ (hk none (at_index path i)))
        (diff_unmatched-IsShaped path ks [] h)
  diff_unmatched-IsShaped path ((i, k) ∷ ks) ((j, b) ∷ bs) (hk, h) =
      Each-append (at_position-IsShaped j _ (hk (some b) (at_index path j)))
        (diff_unmatched-IsShaped path ks bs h)

  pub diff_operation_lists-IsShaped :
      (ks : List (Child go o)) (bs : List (Node go.F)) (path : Text)
      → All (ShapedChild go o) ks
      → AllShaped (diff_operation_lists go o ks bs path)
  unfolding diff_operation_lists
  diff_operation_lists-IsShaped ks bs path h =
      let moved =
        pair_up (same_body go o) (unmatched_left go o 0 ks bs) (unmatched_right go o 0 ks bs) in
      let kept =
        pair_up_keeps (same_body go o) ShapedItem (unmatched_left go o 0 ks bs)
          (unmatched_right go o 0 ks bs) (unmatched_items 0 ks bs h) in
      changes_of-IsShaped _ (
        sorted_changes _ (
          Each-append (reorders-IsShaped path moved.pairs)
            (diff_unmatched-IsShaped path moved.lefts moved.rights kept.1)))

  diff_pairs-IsShaped :
      (path : Text) (pairs : List (LeftItem go o × RightItem go o))
      → All (λ q. ShapedItem q.0) pairs
      → AllShaped (diff_pairs go o path pairs)
  unfolding diff_pairs
  diff_pairs-IsShaped path [] h = each_none
  diff_pairs-IsShaped path (((i, k), (j, b)) ∷ pairs) (hk, h) =
      Each-append (hk (some b) (at_index path j)) (diff_pairs-IsShaped path pairs h)

  unpaired_left-IsShaped :
      (path : Text) (ks : List (LeftItem go o))
      → All ShapedItem ks
      → AllShaped (diff_unpaired_left go o path ks)
  unfolding diff_unpaired_left
  unpaired_left-IsShaped path [] h = each_none
  unpaired_left-IsShaped path ((i, k) ∷ ks) (hk, h) =
      Each-append (hk none (at_index path i)) (unpaired_left-IsShaped path ks h)

  unpaired_right-IsShaped :
      (path : Text) (bs : List (RightItem go o)) → AllShaped (diff_unpaired_right go o path bs)
  unfolding diff_unpaired_right
  unpaired_right-IsShaped path [] = each_none
  unpaired_right-IsShaped path ((j, b) ∷ bs) =
      Each-append (diff_added-IsShaped go o b (at_index path j)) (unpaired_right-IsShaped path bs)

  pub diff_event_lists-IsShaped :
      (ks : List (Child go o)) (bs : List (Node go.F)) (path : Text)
      → All (ShapedChild go o) ks
      → AllShaped (diff_event_lists go o ks bs path)
  unfolding diff_event_lists
  diff_event_lists-IsShaped ks bs path h =
      let exact = pair_up (topics_match go o) (indexed_from 0 ks) (indexed_from 0 bs) in
      let kept =
        pair_up_keeps (topics_match go o) ShapedItem (indexed_from 0 ks) (indexed_from 0 bs)
          (indexed_items 0 ks h) in
      let second = pair_up (primary_topics_match go o) exact.lefts exact.rights in
      let loose =
        pair_up_keeps (primary_topics_match go o) ShapedItem exact.lefts exact.rights kept.1 in
      Each-append
        (diff_pairs-IsShaped path _ (All-append _ exact.pairs second.pairs kept.0 loose.0))
        (Each-append (unpaired_left-IsShaped path _ loose.1) (unpaired_right-IsShaped path _))
