-- ===== src/Diff/Same.antt =====
-- sameNodeWithOptions: whether two list elements are taken for one.
use stellar_xdr_lens.Prelude.{
  ◌&&◌, ◌∷◌, if◌then◌else◌, ◌==◌, [], true, false, Bool, not, text_eq, length, List,
}
use stellar_xdr_lens.Tree.Value.{
  GoLib, Node, node, name, kind_eq, kind, scalar, to_list, children, Nodes, more, empty,
}
use stellar_xdr_lens.Diff.Change.{DiffOptions}
use stellar_xdr_lens.Diff.Scalar.{nodes_binary_equal, same_scalar}

module _ (go : GoLib) (o : DiffOptions go.F) where
  -- Both children lists have the same length where this is asked.
  unfoldable mutual
    pub same_node : Node go.F → Node go.F → Bool
    same_node (node m k t v n cs) b =
        if not (text_eq m (name b))
        then false
        else if not (kind_eq k (kind b))
        then nodes_binary_equal go (node m k t v n cs) b
        else if kind_eq k scalar
        then same_scalar go o (node m k t v n cs) b
        else (length (to_list cs) == length (children b)) && same_nodes cs (children b)

    pub same_nodes : Nodes go.F → List (Node go.F) → Bool
    same_nodes empty bs = true
    same_nodes (more c cs) [] = true
    same_nodes (more c cs) (b ∷ bs) = same_node c b && same_nodes cs bs
