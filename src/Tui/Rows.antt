-- ===== src/Tui/Rows.antt =====
-- walk and the filter of rebuildRows. A node of the tree is named by its address, the positions of its
-- ancestors and its own among their siblings, the innermost first: Go compares pointers, and no node
-- of a decoded tree stands at two places. The map expandedState is a function from addresses.
use stellar_xdr_lens.Prelude.{
  ◌∷◌, ◌++◌, [], ◌+◌, ◌&&◌, ◌||◌, ◌==◌, if◌then◌else◌, true, false, none, some, Bool, List, Text,
  Option, contains, length, text_eq, ℕ, itoa, codes, not,
}
use stellar_xdr_lens.Tree.Value.{GoLib, Node, Nodes, more, node, show_val, empty, name}

abbrev pub Address : Type 0
Address = List ℕ

unfoldable pub put : Address → Bool → (Address → Bool) → Address → Bool
unfolding text_eq
put a b marks x = let old = marks x in if text_eq x a then b else old

pub record TreeRow (F : Type 0) : Type 0 where
  pub row_node : Node F
  pub address : Address
  pub parent : Option Address
  pub path : Text
  pub depth : ℕ
  pub is_last : Bool
  pub has_children : Bool
  pub is_expanded : Bool

unfoldable pub has_kids : {F : Type 0} → Nodes F → Bool
has_kids empty = false
has_kids (more c cs) = true

unfoldable pub node_path : Text → Text → Text
node_path path m =
    if length path == 0 then m else if length m == 0 then path else path ++ (b'.' ∷ m)

unfoldable pub child_path : Text → Text → ℕ → Text
child_path path m i = if length m == 0 then path ++ (b'[' ∷ (itoa i ++ codes "]")) else path

module _ {F : Type 0} (marks : Address → Bool) where
  unfoldable mutual
    unfolding has_kids node_path child_path

    pub walk_node : Node F → Address → Option Address → Text → ℕ → Bool → List (TreeRow F)
    walk_node (node m k t v n cs) a parent path depth is_last =
        let own = node_path path m in
        let below = walk_children cs a 0 own (depth + 1) in
        let shown = has_kids cs && marks a in
        record {
          row_node = node m k t v n cs;
          address = a;
          parent = parent;
          path = own;
          depth = depth;
          is_last = is_last;
          has_children = has_kids cs;
          is_expanded = marks a;
        }
        ∷ (if shown then below else [])

    pub walk_children : Nodes F → Address → ℕ → Text → ℕ → List (TreeRow F)
    walk_children empty a i own depth = []
    walk_children (more c cs) a i own depth =
        walk_node c (i ∷ a) (some a) (child_path own (name c) i) depth (not (has_kids cs))
        ++ walk_children cs a (i + 1) own depth

-- strings.ToLower is left open.
module _ (fl : GoLib) (to_lower : Text → Text) where
  unfoldable pub row_text : Node fl.F → Text
  unfolding show_val
  row_text (node m k t v n cs) = m ++ (b' ' ∷ (show_val fl v ++ (b' ' ∷ (n ++ (b' ' ∷ t)))))

  unfoldable pub is_match : Text → Node fl.F → Bool
  unfolding row_text contains
  is_match filter n = contains (to_lower (row_text n)) (to_lower filter)

  -- A node's own match, and those of its children, which have changed the map before.
  unfoldable pub mark_node : Address → Bool → Bool × (Address → Bool) → Bool × (Address → Bool)
  unfolding put
  mark_node a self (below, marks) =
      let found = self || below in (found, if found then put a true marks else marks)

  -- markAncestors: whether there is a match, and the map of expanded nodes.
  unfoldable mutual
    unfolding is_match mark_node

    pub mark_ancestors : Text → Node fl.F → Address → (Address → Bool) → Bool × (Address → Bool)
    mark_ancestors filter (node m k t v n cs) a marks =
        mark_node a (is_match filter (node m k t v n cs)) (mark_children filter cs a 0 marks)

    pub mark_children : Text → Nodes fl.F → Address → ℕ → (Address → Bool) → Bool × (Address → Bool)
    mark_children filter empty a i marks = (false, marks)
    mark_children filter (more c cs) a i marks =
        let (here, marks') = mark_ancestors filter c (i ∷ a) marks in
        let (later, marks'') = mark_children filter cs a (i + 1) marks' in (here || later, marks'')

  unfoldable pub keep_matches : Text → List (TreeRow fl.F) → List (TreeRow fl.F)
  unfolding is_match
  keep_matches filter [] = []
  keep_matches filter (r ∷ rs) =
      let rest = keep_matches filter rs in if is_match filter r.row_node then r ∷ rest else rest

  unfoldable pub marked : Text → Option (Node fl.F) → (Address → Bool) → Address → Bool
  unfolding mark_ancestors
  marked filter none marks = marks
  marked filter (some root) marks =
      if length filter == 0 then marks else (mark_ancestors filter root [] marks).1

  unfoldable pub rows_of : Text → Option (Node fl.F) → (Address → Bool) → List (TreeRow fl.F)
  unfolding walk_node keep_matches
  rows_of filter none marks = []
  rows_of filter (some root) marks =
      let rows = walk_node marks root [] none [] 0 true in
      if length filter == 0 then rows else keep_matches filter rows
