-- ===== src/Diff/Collections.antt =====
-- diffOperationLists and diffEventLists: lists that are matched before they are compared.
use stellar_xdr_lens.Prelude.{
  ◌∷◌, ◌++◌, if◌then◌else◌, suc, [], none, some, List, Text, ℕ, leb, Bool, map, pos, codes, itoa,
}
use stellar_xdr_lens.Tree.Value.{GoLib, Node, int}
use stellar_xdr_lens.Diff.Change.{Change, DiffOptions, at_index, change_reordered}
use stellar_xdr_lens.Diff.Children.{Child, diff_added, same_child}
use stellar_xdr_lens.Diff.Events.{same_primary_topic, same_topics, extract_event_log_meta}
use stellar_xdr_lens.Diff.Greedy.{indexed_from, pair_up}

pub record IndexedChange (F : Type 0) : Type 0 where
  pub position : ℕ
  pub change : Change F

-- sort.SliceStable by position.
module _ {F : Type 0} where
  unfoldable pub insert_change : IndexedChange F → List (IndexedChange F) → List (IndexedChange F)
  insert_change c [] = c ∷ []
  insert_change c (d ∷ ds) =
      let later = insert_change c ds in if leb c.position d.position then c ∷ d ∷ ds else d ∷ later

  unfoldable pub sort_changes : List (IndexedChange F) → List (IndexedChange F)
  sort_changes [] = []
  sort_changes (c ∷ cs) = insert_change c (sort_changes cs)

  unfoldable pub at_position : ℕ → Change F → IndexedChange F
  at_position i c = record { position = i; change = c }

  unfoldable pub changes_of : List (IndexedChange F) → List (Change F)
  changes_of [] = []
  changes_of (c ∷ cs) = c.change ∷ changes_of cs

  unfoldable pub reorder_change : Text → ℕ → ℕ → Change F
  reorder_change path i j = record {
    path = at_index path j;
    op = change_reordered;
    before = int (pos i);
    after = int (pos j);
    before_note = codes "index " ++ itoa i;
    after_note = codes "index " ++ itoa j;
  }

module _ (go : GoLib) (o : DiffOptions go.F) where
  abbrev pub LeftItem : Type 0
  LeftItem = ℕ × Child go o

  abbrev pub RightItem : Type 0
  RightItem = ℕ × Node go.F

  -- What the first pass of diffOperationLists leaves unmatched.
  unfoldable pub unmatched_left : ℕ → List (Child go o) → List (Node go.F) → List LeftItem
  unmatched_left i [] bs = []
  unmatched_left i (k ∷ ks) [] = indexed_from i (k ∷ ks)
  unmatched_left i (k ∷ ks) (b ∷ bs) =
      let rest = unmatched_left (suc i) ks bs in if same_child go o k b then rest else (i, k) ∷ rest

  unfoldable pub unmatched_right : ℕ → List (Child go o) → List (Node go.F) → List RightItem
  unmatched_right i [] bs = indexed_from i bs
  unmatched_right i (k ∷ ks) [] = []
  unmatched_right i (k ∷ ks) (b ∷ bs) =
      let rest = unmatched_right (suc i) ks bs in
      if same_child go o k b then rest else (i, b) ∷ rest

  unfoldable pub same_body : LeftItem → RightItem → Bool
  same_body (i, k) (j, b) = same_child go o k b

  unfoldable pub reorders : Text → List (LeftItem × RightItem) → List (IndexedChange go.F)
  reorders path [] = []
  reorders path (((i, k), (j, b)) ∷ pairs) =
      at_position j (reorder_change path i j) ∷ reorders path pairs

  -- The three loops over what no pass has matched.
  unfoldable pub diff_unmatched : Text → List LeftItem → List RightItem → List (IndexedChange go.F)
  diff_unmatched path [] [] = []
  diff_unmatched path [] ((j, b) ∷ bs) =
      map (at_position j) (diff_added go o b (at_index path j)) ++ diff_unmatched path [] bs
  diff_unmatched path ((i, k) ∷ ks) [] =
      map (at_position i) (k.compare none (at_index path i)) ++ diff_unmatched path ks []
  diff_unmatched path ((i, k) ∷ ks) ((j, b) ∷ bs) =
      map (at_position j) (k.compare (some b) (at_index path j)) ++ diff_unmatched path ks bs

  -- diffOperationLists
  unfoldable pub diff_operation_lists :
      List (Child go o) → List (Node go.F) → Text → List (Change go.F)
  diff_operation_lists ks bs path =
      let moved = pair_up same_body (unmatched_left 0 ks bs) (unmatched_right 0 ks bs) in
      changes_of
        (sort_changes (reorders path moved.pairs ++ diff_unmatched path moved.lefts moved.rights))

  unfoldable pub topics_match : LeftItem → RightItem → Bool
  topics_match (i, k) (j, b) =
      same_topics (extract_event_log_meta go k.child_node) (extract_event_log_meta go b)

  unfoldable pub primary_topics_match : LeftItem → RightItem → Bool
  primary_topics_match (i, k) (j, b) =
      same_primary_topic (extract_event_log_meta go k.child_node) (extract_event_log_meta go b)

  unfoldable pub diff_pairs : Text → List (LeftItem × RightItem) → List (Change go.F)
  diff_pairs path [] = []
  diff_pairs path (((i, k), (j, b)) ∷ pairs) =
      k.compare (some b) (at_index path j) ++ diff_pairs path pairs

  unfoldable pub diff_unpaired_left : Text → List LeftItem → List (Change go.F)
  diff_unpaired_left path [] = []
  diff_unpaired_left path ((i, k) ∷ ks) =
      k.compare none (at_index path i) ++ diff_unpaired_left path ks

  unfoldable pub diff_unpaired_right : Text → List RightItem → List (Change go.F)
  diff_unpaired_right path [] = []
  diff_unpaired_right path ((j, b) ∷ bs) =
      diff_added go o b (at_index path j) ++ diff_unpaired_right path bs

  -- diffEventLists
  unfoldable pub diff_event_lists : List (Child go o) → List (Node go.F) → Text → List (Change go.F)
  diff_event_lists ks bs path =
      let exact = pair_up topics_match (indexed_from 0 ks) (indexed_from 0 bs) in
      let loose = pair_up primary_topics_match exact.lefts exact.rights in
      diff_pairs path (exact.pairs ++ loose.pairs)
      ++ (diff_unpaired_left path loose.lefts ++ diff_unpaired_right path loose.rights)
