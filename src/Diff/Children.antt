-- ===== src/Diff/Children.antt =====
-- The walks over the children of two lists and of two structs. A left child comes with the function
-- that compares it, so that each walk here is a plain recursion and Diff/Walk ties the knot.
use stellar_xdr_lens.Prelude.{
  ◌/◌, ◌^◌, ◌&&◌, ◌||◌, ◌∷◌, ◌++◌, if◌then◌else◌, suc, [], false, none, some, Option, Bool, List,
  Text, ℕ, leb, ltb, text_eq, length,
}
use stellar_xdr_lens.Tree.Value.{GoLib, Node, children, name}
use stellar_xdr_lens.Diff.Change.{DiffOptions, Change, at_index, is_masked, added, join}
use stellar_xdr_lens.Diff.Same.{same_node}
use stellar_xdr_lens.Lcs.Table.{lcs_table, step_right, step_down, cell_below, cell_right}
use stellar_xdr_lens.Tree.Query.{child}

pub record LeftChild (F : Type 0) : Type 0 where
  pub child_node : Node F
  pub compare : Option (Node F) → Text → List (Change F)

module _ (go : GoLib) (o : DiffOptions go.F) where
  abbrev pub Child : Type 0
  Child = LeftChild go.F

  -- diffNodesWithOptions with nothing on the left.
  unfoldable pub diff_added : Node go.F → Text → List (Change go.F)
  diff_added b path = if is_masked o.mask path then [] else added path b ∷ []

  unfoldable pub same_child : Child → Node go.F → Bool
  same_child k b = same_node go o k.child_node b

  -- diffListsWithOptions where it compares by position.
  unfoldable pub diff_positions : Text → ℕ → List Child → List (Node go.F) → List (Change go.F)
  diff_positions path i [] [] = []
  diff_positions path i [] (b ∷ bs) =
      diff_added b (at_index path i) ++ diff_positions path (suc i) [] bs
  diff_positions path i (k ∷ ks) [] =
      k.compare none (at_index path i) ++ diff_positions path (suc i) ks []
  diff_positions path i (k ∷ ks) (b ∷ bs) =
      k.compare (some b) (at_index path i) ++ diff_positions path (suc i) ks bs

  -- The walk of diffAlignedLists at lcs[i][j].
  unfoldable pub diff_aligned :
      Text → List (List ℕ) → ℕ → ℕ → List Child → List (Node go.F) → List (Change go.F)
  diff_aligned path rows i j [] [] = []
  diff_aligned path rows i j [] (b ∷ bs) =
      diff_added b (at_index path j) ++ diff_aligned path rows i (suc j) [] bs
  diff_aligned path rows i j (k ∷ ks) [] =
      k.compare none (at_index path i) ++ diff_aligned path rows (suc i) j ks []
  diff_aligned path rows i j (k ∷ ks) (b ∷ bs) =
      let both = diff_aligned path (step_right (step_down rows)) (suc i) (suc j) ks bs in
      let insert = diff_aligned path (step_right rows) i (suc j) (k ∷ ks) bs in
      let delete = diff_aligned path (step_down rows) (suc i) j ks (b ∷ bs) in
      if same_child k b
      then k.compare (some b) (at_index path j) ++ both
      else if leb (cell_below rows) (cell_right rows)
      then diff_added b (at_index path j) ++ insert
      else k.compare none (at_index path i) ++ delete

  abbrev pub max_alignment_cells : ℕ
  max_alignment_cells = 2 ^ 20

  unfoldable pub prefer_below : ℕ → ℕ → Bool
  prefer_below below right = ltb right below

  unfoldable pub fits_alignment : List Child → List (Node go.F) → Bool
  fits_alignment [] bs = false
  fits_alignment (k ∷ ks) [] = false
  fits_alignment (k ∷ ks) (b ∷ bs) = leb (length (k ∷ ks)) (max_alignment_cells / length (b ∷ bs))

  -- diffListsWithOptions
  unfoldable pub diff_lists : List Child → List (Node go.F) → Text → List (Change go.F)
  diff_lists ks bs path =
      if o.align_lists && fits_alignment ks bs
      then diff_aligned path (lcs_table same_child prefer_below ks bs) 0 0 ks bs
      else diff_positions path 0 ks bs

  unfoldable pub names_include : List Child → Text → Bool
  names_include [] m = false
  names_include (k ∷ ks) m = text_eq (name k.child_node) m || names_include ks m

  unfoldable pub diff_left_fields : Node go.F → Text → List Child → List (Change go.F)
  diff_left_fields b path [] = []
  diff_left_fields b path (k ∷ ks) =
      k.compare (child b (name k.child_node)) (join path (name k.child_node))
      ++ diff_left_fields b path ks

  unfoldable pub diff_right_fields : List Child → Text → List (Node go.F) → List (Change go.F)
  diff_right_fields ks path [] = []
  diff_right_fields ks path (b ∷ bs) =
      let rest = diff_right_fields ks path bs in
      if names_include ks (name b) then rest else diff_added b (join path (name b)) ++ rest

  -- diffStructsWithOptionsFallback
  unfoldable pub diff_fields : List Child → Node go.F → Text → List (Change go.F)
  diff_fields ks b path = diff_left_fields b path ks ++ diff_right_fields ks path (children b)
