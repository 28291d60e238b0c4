-- ===== src/Diff/Walk.antt =====
-- diffNodesWithOptions: two trees walked in parallel.
use stellar_xdr_lens.Prelude.{◌&&◌, ◌∷◌, if◌then◌else◌, [], none, some, List, Option, Text, text_eq}
use stellar_xdr_lens.Tree.Value.{
  GoLib, Kind, Node, kind_eq, node, kind, Nodes, scalar, children, list, more, empty, struct,
}
use stellar_xdr_lens.Diff.Change.{DiffOptions, Change, removed, is_masked, modified, type_changed}
use stellar_xdr_lens.Diff.Children.{Child, diff_fields, diff_lists}
use stellar_xdr_lens.Diff.Memo.{
  extract_memo_arm, is_memo_struct, memo_values_equivalent, memo_change,
}
use stellar_xdr_lens.Diff.Scalar.{same_scalar, nodes_binary_equal}
use stellar_xdr_lens.Diff.Signers.{collection_name, is_signer_collection, diff_multiset_lists}
use stellar_xdr_lens.Diff.Ledger.{is_ledger_entry_struct, with_transition}
use stellar_xdr_lens.Diff.Events.{is_operation_collection, is_event_collection}
use stellar_xdr_lens.Diff.Collections.{diff_operation_lists, diff_event_lists}

module _ (go : GoLib) (o : DiffOptions go.F) where
  -- diffMemoSemantic
  unfoldable pub diff_memo : Node go.F → List (Child go o) → Node go.F → Text → List (Change go.F)
  diff_memo a ks b path =
      let x = extract_memo_arm a in
      let y = extract_memo_arm b in
      if text_eq x.0 y.0
      then diff_fields go o ks b path
      else if memo_values_equivalent go x.0 x.1 y.0 y.1
      then memo_change go path x y ∷ []
      else diff_fields go o ks b path

  -- diffStructsWithOptions
  unfoldable pub diff_structs :
      Node go.F → List (Child go o) → Node go.F → Text → List (Change go.F)
  diff_structs a ks b path =
      if is_memo_struct a b
      then diff_memo a ks b path
      else if is_ledger_entry_struct a b
      then with_transition go a b path (diff_fields go o ks b path)
      else diff_fields go o ks b path

  -- The case of two lists.
  unfoldable pub diff_collections :
      Node go.F → List (Child go o) → Node go.F → Text → List (Change go.F)
  diff_collections a ks b path =
      let m = collection_name path a b in
      if o.unordered_signers && is_signer_collection m
      then diff_multiset_lists go (children a) (children b) path
      else if is_operation_collection m
      then diff_operation_lists go o ks (children b) path
      else if is_event_collection m a b
      then diff_event_lists go o ks (children b) path
      else diff_lists go o ks (children b) path

  -- Two nodes of one kind.
  unfoldable pub diff_of_kind :
      Kind → Node go.F → List (Child go o) → Node go.F → Text → List (Change go.F)
  diff_of_kind scalar a ks b path = if same_scalar go o a b then [] else modified path a b ∷ []
  diff_of_kind list a ks b path = diff_collections a ks b path
  diff_of_kind struct a ks b path = diff_structs a ks b path

  unfoldable pub diff_pair : Node go.F → List (Child go o) → Node go.F → Text → List (Change go.F)
  diff_pair a ks b path =
      if kind_eq (kind a) (kind b)
      then diff_of_kind (kind a) a ks b path
      else if nodes_binary_equal go a b
      then []
      else type_changed path a b ∷ []

  unfoldable pub diff_sides :
      Node go.F → List (Child go o) → Option (Node go.F) → Text → List (Change go.F)
  diff_sides a ks none path = removed path a ∷ []
  diff_sides a ks (some b) path = diff_pair a ks b path

  unfoldable mutual
    -- diffNodesWithOptions with a node on the left.
    pub diff_nodes : Node go.F → Option (Node go.F) → Text → List (Change go.F)
    diff_nodes (node m k t v n cs) b path =
        let ks = left_children cs in
        if is_masked o.mask path then [] else diff_sides (node m k t v n cs) ks b path

    pub left_children : Nodes go.F → List (Child go o)
    left_children empty = []
    left_children (more c cs) =
        record { child_node = c; compare = λ b path. diff_nodes c b path } ∷ left_children cs

  -- DiffWithOptions, as far as the walk: both values are there, nothing is redacted, and no filter
  -- is set.
  unfoldable pub diff_trees : Node go.F → Node go.F → List (Change go.F)
  diff_trees a b = diff_nodes a (some b) []
