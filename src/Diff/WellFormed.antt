-- ===== src/Diff/WellFormed.antt =====
-- The fields of the changes of diffNodesWithOptions that their kinds leave empty.
use stellar_xdr_lens.Prelude.{
  [], none, some, refl, List, Option, Text, All, Each-append, each_more, Each-map, each_none,
}
use stellar_xdr_lens.Tree.Value.{
  GoLib, Kind, Node, node, children, kind, scalar, list, Nodes, more, empty, struct,
}
use stellar_xdr_lens.Diff.Change.{DiffOptions, Change, is_masked}
use stellar_xdr_lens.Diff.Ledger.{with_transition, transition_change, key_change, remark}
use stellar_xdr_lens.Diff.Signers.{diff_multiset_lists, removed_label, added_label}
use stellar_xdr_lens.Diff.Walk.{
  diff_collections, diff_memo, diff_nodes, diff_of_kind, diff_sides, diff_structs, diff_trees,
  diff_pair, left_children,
}
use stellar_xdr_lens.Diff.Memo.{memo_change}
use stellar_xdr_lens.Diff.Shape.{
  AllShaped, ShapedChild, diff_fields-IsShaped, diff_lists-IsShaped, if-IsShaped,
}
use stellar_xdr_lens.Diff.Children.{Child}
use stellar_xdr_lens.Diff.Shape.Collected.{diff_operation_lists-IsShaped, diff_event_lists-IsShaped}

module _ (go : GoLib) (o : DiffOptions go.F) where
  diff_multiset_lists-IsShaped :
      (xs ys : List (Node go.F)) (path : Text) → AllShaped (diff_multiset_lists go xs ys path)
  unfolding diff_multiset_lists removed_label added_label
  diff_multiset_lists-IsShaped xs ys path =
      Each-append (Each-map (removed_label go path) _ (λ t. (refl, refl)))
        (Each-map (added_label go path) _ (λ t. (refl, refl)))

  with_transition-IsShaped :
      (a b : Node go.F) (path : Text) (cs : List (Change go.F))
      → AllShaped cs
      → AllShaped (with_transition go a b path cs)
  unfolding with_transition transition_change key_change remark
  with_transition-IsShaped a b path cs h =
      if-IsShaped _
        (each_more tt (Each-append (if-IsShaped _ (each_more tt each_none) each_none) h)) h

  diff_memo-IsShaped :
      (a : Node go.F) (ks : List (Child go o)) (b : Node go.F) (path : Text)
      → All (ShapedChild go o) ks
      → AllShaped (diff_memo go o a ks b path)
  unfolding diff_memo memo_change
  diff_memo-IsShaped a ks b path h =
      let fields = diff_fields-IsShaped go o ks b path h in
      if-IsShaped _ fields (if-IsShaped _ (each_more tt each_none) fields)

  diff_structs-IsShaped :
      (a : Node go.F) (ks : List (Child go o)) (b : Node go.F) (path : Text)
      → All (ShapedChild go o) ks
      → AllShaped (diff_structs go o a ks b path)
  unfolding diff_structs
  diff_structs-IsShaped a ks b path h =
      let fields = diff_fields-IsShaped go o ks b path h in
      if-IsShaped _ (diff_memo-IsShaped a ks b path h)
        (if-IsShaped _ (with_transition-IsShaped a b path _ fields) fields)

  diff_collections-IsShaped :
      (a : Node go.F) (ks : List (Child go o)) (b : Node go.F) (path : Text)
      → All (ShapedChild go o) ks
      → AllShaped (diff_collections go o a ks b path)
  unfolding diff_collections
  diff_collections-IsShaped a ks b path h =
      if-IsShaped _ (diff_multiset_lists-IsShaped (children a) (children b) path) (
        if-IsShaped _ (diff_operation_lists-IsShaped go o ks (children b) path h) (
          if-IsShaped _ (diff_event_lists-IsShaped go o ks (children b) path h)
            (diff_lists-IsShaped go o ks (children b) path h)))

  diff_of_kind-IsShaped :
      (k : Kind) (a : Node go.F) (ks : List (Child go o)) (b : Node go.F) (path : Text)
      → All (ShapedChild go o) ks
      → AllShaped (diff_of_kind go o k a ks b path)
  unfolding diff_of_kind
  diff_of_kind-IsShaped scalar a ks b path h = if-IsShaped _ each_none (each_more tt each_none)
  diff_of_kind-IsShaped list a ks b path h = diff_collections-IsShaped a ks b path h
  diff_of_kind-IsShaped struct a ks b path h = diff_structs-IsShaped a ks b path h

  diff_sides-IsShaped :
      (a : Node go.F) (ks : List (Child go o)) (b : Option (Node go.F)) (path : Text)
      → All (ShapedChild go o) ks
      → AllShaped (diff_sides go o a ks b path)
  unfolding diff_sides diff_pair
  diff_sides-IsShaped a ks none path h = each_more (refl, refl) each_none
  diff_sides-IsShaped a ks (some b) path h =
      if-IsShaped _ (diff_of_kind-IsShaped (kind a) a ks b path h)
        (if-IsShaped _ each_none (each_more tt each_none))

  mutual
    unfolding diff_nodes

    nodes_shaped :
        (a : Node go.F) (b : Option (Node go.F)) (path : Text)
        → AllShaped (diff_nodes go o a b path)
    nodes_shaped (node m k t v n cs) b path = if-IsShaped (is_masked o.mask path) each_none (
        diff_sides-IsShaped (node m k t v n cs) (left_children go o cs) b path (children_shaped cs))

    children_shaped : (cs : Nodes go.F) → All (ShapedChild go o) (left_children go o cs)
    children_shaped empty = tt
    children_shaped (more c cs) = ((λ b path. nodes_shaped c b path), children_shaped cs)

  -- Every addition that the diff of two trees reports has no value and no note before, and every
  -- removal none after, whatever the trees and the options are.
  pub diff_trees-IsShaped : (a b : Node go.F) → AllShaped (diff_trees go o a b)
  unfolding diff_trees
  diff_trees-IsShaped a b = nodes_shaped a (some b) []
