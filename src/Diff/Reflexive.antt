-- ===== src/Diff/Reflexive.antt =====
-- sameNodeWithOptions on a node and itself.
use stellar_xdr_lens.Prelude.{◌≡◌, true, refl, text_eq_refl, eq_true, length, or_true}
use stellar_xdr_lens.Tree.Value.{
  GoLib, kind_eq, Kind, scalar, Node, struct, list, node, note, show_val, to_list, value, Nodes,
  more, empty,
}
use stellar_xdr_lens.Diff.Change.{DiffOptions}
use stellar_xdr_lens.Diff.Same.{same_node, same_nodes}
use stellar_xdr_lens.Diff.Scalar.{same_scalar, same_rendering, deep_equal}

pub kind_eq_refl : (k : Kind) → kind_eq k k ≡ true
unfolding kind_eq
kind_eq_refl scalar = refl
kind_eq_refl struct = refl
kind_eq_refl list = refl

module _ (go : GoLib) (o : DiffOptions go.F) where
  pub same_scalar_refl : (a : Node go.F) → same_scalar go o a a ≡ true
  unfolding same_scalar same_rendering
  same_scalar_refl a = rw (
    text_eq_refl (note a),
    text_eq_refl (show_val go (value a)),
    or_true (deep_equal go (value a) (value a)),
  )

  mutual
    unfolding same_node kind_eq

    pub same_node_refl : (a : Node go.F) → same_node go o a a ≡ true
    same_node_refl (node m scalar t v n cs) =
        rw (text_eq_refl m, same_scalar_refl (node m scalar t v n cs))
    same_node_refl (node m struct t v n cs) =
        rw (text_eq_refl m, eq_true (length (to_list cs)) _ refl, same_nodes_refl cs)
    same_node_refl (node m list t v n cs) =
        rw (text_eq_refl m, eq_true (length (to_list cs)) _ refl, same_nodes_refl cs)

    pub same_nodes_refl : (cs : Nodes go.F) → same_nodes go o cs (to_list cs) ≡ true
    same_nodes_refl empty = refl
    same_nodes_refl (more c cs) = rw (same_node_refl c, same_nodes_refl cs)
