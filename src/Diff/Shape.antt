-- ===== src/Diff/Shape.antt =====
-- The fields of a change that its kind leaves empty, for the walks over children.
pub mod Collected
use stellar_xdr_lens.Prelude.{
  ◌≡◌, ◌&&◌, ◌∷◌, suc, [], none, some, refl, List, All, Option, Text, ℕ, leb, if◌then◌else◌, true,
  false, Bool, Each, Each-append, each_none, each_more,
}
use stellar_xdr_lens.Diff.Change.{
  Change, DiffOptions, change_added, change_removed, at_index, is_masked, join,
}
use stellar_xdr_lens.Tree.Value.{GoLib, nil, Node, children, name}
use stellar_xdr_lens.Diff.Children.{
  Child, diff_added, diff_aligned, diff_fields, diff_left_fields, diff_lists, diff_positions,
  diff_right_fields, fits_alignment, names_include, same_child,
}
use stellar_xdr_lens.Lcs.Table.{step_right, step_down, cell_below, cell_right}

-- An addition has nothing before, and a removal nothing after.
abbrev pub IsShaped : {F : Type 0} → Change F → Type 0
IsShaped c = elim c.op [
  | change_added ↦ (c.before ≡ nil) × (c.before_note ≡ [])
  | change_removed ↦ (c.after ≡ nil) × (c.after_note ≡ [])
  | _ ↦ Unit {0}
]

abbrev pub AllShaped : {F : Type 0} → List (Change F) → Type 0
AllShaped cs = Each IsShaped cs

pub if-IsShaped :
    {F : Type 0} {xs ys : List (Change F)} (b : Bool)
    → AllShaped xs
    → AllShaped ys
    → AllShaped (if b then xs else ys)
if-IsShaped true p q = p
if-IsShaped false p q = q

module _ (go : GoLib) (o : DiffOptions go.F) where
  -- Comparing this child gives well-formed changes.
  abbrev pub ShapedChild : Child go o → Type 0
  ShapedChild k = (b : Option (Node go.F)) (path : Text) → AllShaped (k.compare b path)

  pub diff_added-IsShaped : (b : Node go.F) (path : Text) → AllShaped (diff_added go o b path)
  unfolding diff_added
  diff_added-IsShaped b path =
      if-IsShaped (is_masked o.mask path) each_none (each_more (refl, refl) each_none)

  diff_positions-IsShaped :
      (path : Text) (i : ℕ) (ks : List (Child go o)) (bs : List (Node go.F))
      → All ShapedChild ks
      → AllShaped (diff_positions go o path i ks bs)
  unfolding diff_positions
  diff_positions-IsShaped path i [] [] h = each_none
  diff_positions-IsShaped path i [] (b ∷ bs) h =
      Each-append (diff_added-IsShaped b (at_index path i))
        (diff_positions-IsShaped path (suc i) [] bs h)
  diff_positions-IsShaped path i (k ∷ ks) [] (hk, h) =
      Each-append (hk none (at_index path i)) (diff_positions-IsShaped path (suc i) ks [] h)
  diff_positions-IsShaped path i (k ∷ ks) (b ∷ bs) (hk, h) =
      Each-append (hk (some b) (at_index path i)) (diff_positions-IsShaped path (suc i) ks bs h)

  diff_aligned-IsShaped :
      (path : Text) (rows : List (List ℕ)) (i j : ℕ) (ks : List (Child go o))
      (bs : List (Node go.F))
      → All ShapedChild ks
      → AllShaped (diff_aligned go o path rows i j ks bs)
  unfolding diff_aligned
  diff_aligned-IsShaped path rows i j [] [] h = each_none
  diff_aligned-IsShaped path rows i j [] (b ∷ bs) h =
      Each-append (diff_added-IsShaped b (at_index path j))
        (diff_aligned-IsShaped path rows i (suc j) [] bs h)
  diff_aligned-IsShaped path rows i j (k ∷ ks) [] (hk, h) =
      Each-append (hk none (at_index path i)) (diff_aligned-IsShaped path rows (suc i) j ks [] h)
  diff_aligned-IsShaped path rows i j (k ∷ ks) (b ∷ bs) (hk, h) =
      if-IsShaped (same_child go o k b)
        (Each-append (hk (some b) (at_index path j))
          (diff_aligned-IsShaped path (step_right (step_down rows)) (suc i) (suc j) ks bs h))
        (if-IsShaped (leb (cell_below rows) (cell_right rows))
          (Each-append (diff_added-IsShaped b (at_index path j))
            (diff_aligned-IsShaped path (step_right rows) i (suc j) (k ∷ ks) bs (hk, h)))
          (Each-append (hk none (at_index path i))
            (diff_aligned-IsShaped path (step_down rows) (suc i) j ks (b ∷ bs) h)))

  pub diff_lists-IsShaped :
      (ks : List (Child go o)) (bs : List (Node go.F)) (path : Text)
      → All ShapedChild ks
      → AllShaped (diff_lists go o ks bs path)
  unfolding diff_lists
  diff_lists-IsShaped ks bs path h =
      if-IsShaped (o.align_lists && fits_alignment go o ks bs)
        (diff_aligned-IsShaped path _ 0 0 ks bs h) (diff_positions-IsShaped path 0 ks bs h)

  diff_left_fields-IsShaped :
      (b : Node go.F) (path : Text) (ks : List (Child go o))
      → All ShapedChild ks
      → AllShaped (diff_left_fields go o b path ks)
  unfolding diff_left_fields
  diff_left_fields-IsShaped b path [] h = each_none
  diff_left_fields-IsShaped b path (k ∷ ks) (hk, h) =
      Each-append (hk _ _) (diff_left_fields-IsShaped b path ks h)

  diff_right_fields-IsShaped :
      (ks : List (Child go o)) (path : Text) (bs : List (Node go.F))
      → AllShaped (diff_right_fields go o ks path bs)
  unfolding diff_right_fields
  diff_right_fields-IsShaped ks path [] = each_none
  diff_right_fields-IsShaped ks path (b ∷ bs) =
      let rest = diff_right_fields-IsShaped ks path bs in
      if-IsShaped (names_include go o ks (name b)) rest
        (Each-append (diff_added-IsShaped b (join path (name b))) rest)

  pub diff_fields-IsShaped :
      (ks : List (Child go o)) (b : Node go.F) (path : Text)
      → All ShapedChild ks
      → AllShaped (diff_fields go o ks b path)
  unfolding diff_fields
  diff_fields-IsShaped ks b path h =
      Each-append (diff_left_fields-IsShaped b path ks h)
        (diff_right_fields-IsShaped ks path (children b))
