-- ===== src/Diff/Equal.antt =====
-- diffNodesWithOptions on a tree and itself.
use stellar_xdr_lens.Prelude.{
  ◌≡◌, [], true, false, refl, List, Bool, Text, some, if-both, map, text_eq_refl,
}
use stellar_xdr_lens.Tree.Value.{
  GoLib, Node, children, node, to_list, Nodes, more, kind_eq, struct, scalar, list, empty, Val,
}
use stellar_xdr_lens.Diff.Change.{DiffOptions, is_masked}
use stellar_xdr_lens.Diff.Ledger.{
  is_structural_change, with_transition, classify_transition, transition_of, is_ledger_entry_struct,
}
use stellar_xdr_lens.Diff.Signers.{diff_multiset_lists, item_of}
use stellar_xdr_lens.Diff.Walk.{
  diff_collections, diff_structs, diff_memo, diff_nodes, diff_sides, diff_pair, diff_of_kind,
  left_children, diff_trees,
}
use stellar_xdr_lens.Diff.Children.{Child}
use stellar_xdr_lens.Diff.Ledger.Fields.{has_ledger_entry_data}
use stellar_xdr_lens.Diff.SelfEqual.{
  Selves, diff_operation_lists_self, diff_event_lists_self, diff_lists_self,
}
use stellar_xdr_lens.Diff.SelfFields.{DistinctNames, diff_fields_self}
use stellar_xdr_lens.Diff.Multiset.{signer_set_diff_self}
use stellar_xdr_lens.Diff.Memo.{is_memo_struct, extract_memo_arm}
use stellar_xdr_lens.Diff.Reflexive.{same_scalar_refl}

module _ (go : GoLib) (o : DiffOptions go.F) where
  -- The fields of every struct in the tree have different names.
  abbrev mutual
    pub WellNamed : Node go.F → Type 0
    WellNamed (node m struct t v n cs) = DistinctNames go o (to_list cs) × AllWellNamed cs
    WellNamed (node m scalar t v n cs) = AllWellNamed cs
    WellNamed (node m list t v n cs) = AllWellNamed cs

    pub AllWellNamed : Nodes go.F → Type 0
    AllWellNamed empty = Unit
    AllWellNamed (more c cs) = WellNamed c × AllWellNamed cs

  structural-same : (b : Bool) → is_structural_change (transition_of b b) ≡ false
  unfolding is_structural_change transition_of
  structural-same true = refl
  structural-same false = refl

  with_transition_self : (a : Node go.F) (path : Text) → with_transition go a a path [] ≡ []
  unfolding with_transition classify_transition
  with_transition_self a path = rw (structural-same (has_ledger_entry_data go a))

  diff_structs_self :
      (a : Node go.F) (ks : List (Child go o)) (path : Text)
      → Selves go o ks (children a)
      → DistinctNames go o (children a)
      → diff_structs go o a ks a path ≡ []
  unfolding diff_structs diff_memo
  diff_structs_self a ks path h distinct =
      let fields = diff_fields_self go o ks a path h distinct in
      if-both (is_memo_struct a a) (rw (text_eq_refl (extract_memo_arm a).0, fields))
        (if-both (is_ledger_entry_struct a a) (rw (fields, with_transition_self a path)) fields)

  diff_multiset_lists_self :
      (cs : List (Node go.F)) (path : Text) → diff_multiset_lists go cs cs path ≡ []
  unfolding diff_multiset_lists
  diff_multiset_lists_self cs path = rw (
    (signer_set_diff_self (map (item_of go) cs)).0,
    (signer_set_diff_self (map (item_of go) cs)).1,
  )

  diff_collections_self :
      (a : Node go.F) (ks : List (Child go o)) (path : Text)
      → Selves go o ks (children a)
      → diff_collections go o a ks a path ≡ []
  unfolding diff_collections
  diff_collections_self a ks path h = if-both _ (diff_multiset_lists_self (children a) path) (
      if-both _ (diff_operation_lists_self go o ks (children a) path h) (
        if-both _ (diff_event_lists_self go o ks (children a) path h)
          (diff_lists_self go o ks (children a) path h)))

  diff_pair-scalar :
      (m t n : Text) (v : Val go.F) (cs : Nodes go.F) (ks : List (Child go o)) (path : Text)
      → diff_pair go o (node m scalar t v n cs) ks (node m scalar t v n cs) path ≡ []
  unfolding diff_pair diff_of_kind kind_eq
  diff_pair-scalar m t n v cs ks path = rw (same_scalar_refl go o (node m scalar t v n cs))

  mutual
    unfolding diff_nodes diff_sides diff_pair diff_of_kind kind_eq

    nodes_equal :
        (a : Node go.F) → WellNamed a → (path : Text) → diff_nodes go o a (some a) path ≡ []
    nodes_equal (node m scalar t v n cs) h path =
        if-both (is_masked o.mask path) refl
          (diff_pair-scalar m t n v cs (left_children go o cs) path)
    nodes_equal (node m list t v n cs) h path = if-both (is_masked o.mask path) refl (
        diff_collections_self (node m list t v n cs) (left_children go o cs) path
          (children_equal cs h))
    nodes_equal (node m struct t v n cs) (distinct, h) path = if-both (is_masked o.mask path) refl (
        diff_structs_self (node m struct t v n cs) (left_children go o cs) path
          (children_equal cs h) distinct)

    children_equal :
        (cs : Nodes go.F) → AllWellNamed cs → Selves go o (left_children go o cs) (to_list cs)
    children_equal empty h = h
    children_equal (more c cs) (hc, h) = (nodes_equal c hc, refl, children_equal cs h)

  -- A tree whose structs have no two fields of one name, compared with itself, has no changes,
  -- whatever the options, the masked paths and the tolerance for numbers are.
  pub diff_trees_self : (a : Node go.F) → WellNamed a → diff_trees go o a a ≡ []
  unfolding diff_trees
  diff_trees_self a h = nodes_equal a h []
