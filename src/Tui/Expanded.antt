-- ===== src/Tui/Expanded.antt =====
-- Expand all: afterwards every node of the tree has a row, in document order.
use stellar_xdr_lens.Prelude.{
  ◌∷◌, [], ◌+◌, ◌≡◌, ◌&&◌, if◌then◌else◌, true, false, none, some, refl, Bool, Text, List, Option,
  ℕ, ap, not,
}
use stellar_xdr_lens.Tui.Marks.{
  more_children, no_children, is_marked, all_nodes, nodes_of, Keeps, AllMarked, IsMarked, put-Keeps,
  all_nodes_in, put_self, tree_nodes, IsMarked-Keeps, nodes_of-append,
}
use stellar_xdr_lens.Tree.Value.{more, empty, node, GoLib, Node, Nodes, name}
use stellar_xdr_lens.Tui.Rows.{
  has_kids, walk_node, Address, put, rows_of, TreeRow, marked, walk_children, node_path, child_path,
}
use stellar_xdr_lens.Tui.State.{
  mark_all, expand_all, rebuild_rows, TuiTree, mark_whole, mark_all_children,
}

unfoldable wants_open : {F : Type 0} → Node F → Bool
unfolding has_kids
wants_open (node m k t v n cs) = has_kids cs

module _ {F : Type 0} where
  record OpensNode (n : Node F) (a : Address) (old new : Address → Bool) : Type 0 where
    old_kept : Keeps old new
    node_open : IsMarked wants_open new n a

  record OpensNodes (cs : Nodes F) (a : Address) (i : ℕ) (old new : Address → Bool) : Type 0 where
    olds_kept : Keeps old new
    nodes_open : AllMarked wants_open new cs a i

  mutual
    unfolding mark_all wants_open has_kids

    mark_all-OpensNode :
        (n : Node F) (a : Address) (marks : Address → Bool)
        → OpensNode n a marks (mark_all n a marks)
    mark_all-OpensNode (node m k t v n empty) a marks = record {
      old_kept = λ x h. h;
      node_open = is_marked (λ w. cc) no_children;
    }
    mark_all-OpensNode (node m k t v n (more c cs)) a marks =
        let below = mark_all_children-OpensNodes (more c cs) a 0 (put a true marks) in
        record {
          old_kept = λ x h. below.olds_kept x (put-Keeps a marks x h);
          node_open = is_marked (λ w. below.olds_kept a (put_self a true marks)) below.nodes_open;
        }

    mark_all_children-OpensNodes :
        (cs : Nodes F) (a : Address) (i : ℕ) (marks : Address → Bool)
        → OpensNodes cs a i marks (mark_all_children cs a i marks)
    mark_all_children-OpensNodes empty a i marks = record {
      olds_kept = λ x h. h;
      nodes_open = no_children;
    }
    mark_all_children-OpensNodes (more c cs) a i marks =
        let here = mark_all-OpensNode c (i ∷ a) marks in
        let later = mark_all_children-OpensNodes cs a (i + 1) (mark_all c (i ∷ a) marks) in
        record {
          olds_kept = λ x h. later.olds_kept x (here.old_kept x h);
          nodes_open =
              more_children (IsMarked-Keeps wants_open later.olds_kept here.node_open)
                later.nodes_open;
        }

  shown_below :
      (cs : Nodes F) (opened : Bool) (rows : List (TreeRow F))
      → (has_kids cs ≡ true → opened ≡ true)
      → nodes_of rows ≡ all_nodes_in cs
      → nodes_of (if has_kids cs && opened then rows else []) ≡ all_nodes_in cs
  unfolding has_kids nodes_of all_nodes
  shown_below empty opened rows w h = refl
  shown_below (more c cs) true rows w h = h
  shown_below (more c cs) false rows w h = (let bad : false ≡ true = w refl in cc bad)

  mutual
    unfolding walk_node all_nodes nodes_of wants_open

    walk_node-open :
        (marks : Address → Bool) (n : Node F) (a : Address) (parent : Option Address) (path : Text)
        (depth : ℕ) (is_last : Bool)
        → IsMarked wants_open marks n a
        → nodes_of (walk_node marks n a parent path depth is_last) ≡ all_nodes n
    walk_node-open marks (node m k t v n cs) a parent path depth is_last (is_marked h below) =
        ap (λ l. node m k t v n cs ∷ l)
          (shown_below cs (marks a) (walk_children marks cs a 0 (node_path path m) (depth + 1)) h
            (walk_children-open marks cs a 0 (node_path path m) (depth + 1) below))

    walk_children-open :
        (marks : Address → Bool) (cs : Nodes F) (a : Address) (i : ℕ) (own : Text) (depth : ℕ)
        → AllMarked wants_open marks cs a i
        → nodes_of (walk_children marks cs a i own depth) ≡ all_nodes_in cs
    walk_children-open marks empty a i own depth no_children = refl
    walk_children-open marks (more c cs) a i own depth (more_children h hs) =
        let path = child_path own (name c) i in
        let rows = walk_node marks c (i ∷ a) (some a) path depth (not (has_kids cs)) in
        let rest = walk_children marks cs a (i + 1) own depth in
        rw
          (
            nodes_of-append rows rest,
            walk_node-open marks c (i ∷ a) (some a) path depth (not (has_kids cs)) h,
            walk_children-open marks cs a (i + 1) own depth hs,
          )
          refl

module _ (fl : GoLib) (to_lower : Text → Text) where
  rows_of-whole :
      (root : Option (Node fl.F)) (marks : Address → Bool)
      → nodes_of (rows_of fl to_lower [] root (marked fl to_lower [] root (mark_whole root marks)))
        ≡ tree_nodes root
  unfolding rows_of marked mark_whole tree_nodes nodes_of
  rows_of-whole none marks = refl
  rows_of-whole (some root) marks =
      walk_node-open (mark_all root [] marks) root [] none [] 0 true
        (mark_all-OpensNode root [] marks).node_open

  pub expand_all-whole :
      (t : TuiTree fl.F)
      → t.filter ≡ []
      → nodes_of (expand_all fl to_lower t).rows ≡ tree_nodes t.root
  unfolding expand_all rebuild_rows
  expand_all-whole t e = rw e (rows_of-whole t.root t.expanded_state)
