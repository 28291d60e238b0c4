-- ===== src/Tui/Matches.antt =====
-- The filter of rebuildRows: the nodes that match are shown, all of them and no others.
use stellar_xdr_lens.Tui.Marks.{
  more_children, no_children, is_marked, IsMarked-Keeps, all_nodes, put-Keeps, put_self,
  AllMarked-Keeps, nodes_of-append, tree_nodes,
}
use stellar_xdr_lens.Tree.Value.{more, empty, node, name}
use stellar_xdr_lens.Prelude.{
  ◌∷◌, ◌++◌, [], ◌+◌, ◌≡◌, ◌||◌, if◌then◌else◌, false, refl, Text, List, Bool, Bool-cases, ℕ, inl,
  ap, inr, ◌<◌, ◌&&◌, true, none, some, Option, or_false, sym, length, eq_false, arith, not,
  or_true,
}
use stellar_xdr_lens.Tree.Value.{GoLib, Node, Nodes, Kind, Val, node, more, empty}
use stellar_xdr_lens.Tui.Marks.{nodes_of, all_nodes_in, IsMarked, Keeps, AllMarked, no_children}
use stellar_xdr_lens.Tui.Rows.{
  Address, is_match, mark_ancestors, keep_matches, TreeRow, mark_children, has_kids, put, rows_of,
  walk_node, marked, walk_children, node_path, child_path,
}

module _ (fl : GoLib) (to_lower : Text → Text) (filter : Text) where
  -- A node that matches, or has one below it.
  unfoldable mutual
    unfolding is_match

    pub any_match : Node fl.F → Bool
    any_match (node m k t v n cs) =
        is_match fl to_lower filter (node m k t v n cs) || any_match_in cs

    pub any_match_in : Nodes fl.F → Bool
    any_match_in empty = false
    any_match_in (more c cs) = any_match c || any_match_in cs

  unfoldable pub matches : List (Node fl.F) → List (Node fl.F)
  unfolding is_match
  matches [] = []
  matches (n ∷ ns) =
      let rest = matches ns in if is_match fl to_lower filter n then n ∷ rest else rest

  matches-append : (xs ys : List (Node fl.F)) → matches (xs ++ ys) ≡ matches xs ++ matches ys
  unfolding matches
  matches-append [] ys = refl
  matches-append (x ∷ xs) ys = elim (Bool-cases (is_match fl to_lower filter x)) [
    | inl e ↦ rw e (ap (λ l. x ∷ l) (matches-append xs ys))
    | inr e ↦ rw e (matches-append xs ys)
  ]

  nodes_of-keep_matches :
      (rs : List (TreeRow fl.F))
      → nodes_of (keep_matches fl to_lower filter rs) ≡ matches (nodes_of rs)
  unfolding nodes_of keep_matches matches
  nodes_of-keep_matches [] = refl
  nodes_of-keep_matches (r ∷ rs) = elim (Bool-cases (is_match fl to_lower filter r.row_node)) [
    | inl e ↦ rw e (ap (λ l. r.row_node ∷ l) (nodes_of-keep_matches rs))
    | inr e ↦ rw e (nodes_of-keep_matches rs)
  ]

  abbrev Marked : (Address → Bool) → Node fl.F → Address → Type 0
  Marked marks n a = IsMarked any_match marks n a

  -- What markAncestors has done behind a node or a list of children.
  record MarksNode (n : Node fl.F) (a : Address) (old : Address → Bool)
      (out : Bool × (Address → Bool)) : Type 0 where
    found_any : out.0 ≡ any_match n
    marks_kept : Keeps old out.1
    node_marked : IsMarked any_match out.1 n a

  record MarksNodes (cs : Nodes fl.F) (a : Address) (i : ℕ) (old : Address → Bool)
      (out : Bool × (Address → Bool)) : Type 0 where
    found_any_in : out.0 ≡ any_match_in cs
    all_kept : Keeps old out.1
    nodes_marked : AllMarked any_match out.1 cs a i

  found-MarksNode :
      (m : Text) (k : Kind) (t : Text) (v : Val fl.F) (n : Text) (cs : Nodes fl.F) (a : Address)
      (old marks : Address → Bool) (found : Bool)
      → found ≡ any_match (node m k t v n cs)
      → Keeps old marks
      → AllMarked any_match marks cs a 0
      → MarksNode (node m k t v n cs) a old (found, if found then put a true marks else marks)
  found-MarksNode m k t v n cs a old marks true e keeps below = record {
    found_any = e;
    marks_kept = λ x h. put-Keeps a marks x (keeps x h);
    node_marked =
        is_marked (λ _. put_self a true marks)
          (AllMarked-Keeps any_match (put-Keeps a marks) below);
  }
  found-MarksNode m k t v n cs a old marks false e keeps below = record {
    found_any = e;
    marks_kept = keeps;
    node_marked = is_marked (λ w. cc) below;
  }

  mutual
    unfolding mark_ancestors any_match

    mark_ancestors-MarksNode :
        (n : Node fl.F) (a : Address) (marks : Address → Bool)
        → MarksNode n a marks (mark_ancestors fl to_lower filter n a marks)
    mark_ancestors-MarksNode (node m k t v n cs) a marks =
        let below = mark_children-MarksNodes cs a 0 marks in
        let self = is_match fl to_lower filter (node m k t v n cs) in
        found-MarksNode m k t v n cs a marks (mark_children fl to_lower filter cs a 0 marks).1
          (self || (mark_children fl to_lower filter cs a 0 marks).0)
          (ap (λ b. self || b) below.found_any_in) below.all_kept below.nodes_marked

    mark_children-MarksNodes :
        (cs : Nodes fl.F) (a : Address) (i : ℕ) (marks : Address → Bool)
        → MarksNodes cs a i marks (mark_children fl to_lower filter cs a i marks)
    mark_children-MarksNodes empty a i marks = record {
      found_any_in = refl;
      all_kept = λ x h. h;
      nodes_marked = no_children;
    }
    mark_children-MarksNodes (more c cs) a i marks =
        let here = mark_ancestors-MarksNode c (i ∷ a) marks in
        let later =
          mark_children-MarksNodes cs a (i + 1)
            (mark_ancestors fl to_lower filter c (i ∷ a) marks).1 in
        record {
          found_any_in = rw (here.found_any, later.found_any_in) refl;
          all_kept = λ x h. later.all_kept x (here.marks_kept x h);
          nodes_marked =
              more_children (IsMarked-Keeps any_match later.all_kept here.node_marked)
                later.nodes_marked;
        }

  mutual
    unfolding any_match all_nodes matches

    no_matches : (n : Node fl.F) → any_match n ≡ false → matches (all_nodes n) ≡ []
    no_matches (node m k t v n cs) h =
        let (self, below) =
          or_false (is_match fl to_lower filter (node m k t v n cs)) (any_match_in cs) h in
        rw self (no_matches_in cs below)

    no_matches_in : (cs : Nodes fl.F) → any_match_in cs ≡ false → matches (all_nodes_in cs) ≡ []
    no_matches_in empty h = refl
    no_matches_in (more c cs) h =
        let (here, later) = or_false (any_match c) (any_match_in cs) h in
        rw (matches-append (all_nodes c) (all_nodes_in cs), no_matches c here)
          (no_matches_in cs later)

  any_match-above :
      (m : Text) (k : Kind) (t : Text) (v : Val fl.F) (n : Text) (cs : Nodes fl.F)
      → any_match_in cs ≡ true
      → any_match (node m k t v n cs) ≡ true
  unfolding any_match
  any_match-above m k t v n cs e = rw e (or_true (is_match fl to_lower filter (node m k t v n cs)))

  -- Only the head of what walk_node gives depends on the node itself.
  matches-same :
      (n : Node fl.F) (xs ys : List (Node fl.F))
      → matches xs ≡ matches ys
      → matches (n ∷ xs) ≡ matches (n ∷ ys)
  unfolding matches
  matches-same n xs ys h = elim (Bool-cases (is_match fl to_lower filter n)) [
    | inl e ↦ rw e (ap (λ l. n ∷ l) h)
    | inr e ↦ rw e h
  ]

  -- The rows below a node, whose children are shown if it is expanded.
  below_node :
      (cs : Nodes fl.F) (opened : Bool) (rows : List (TreeRow fl.F))
      → (any_match_in cs ≡ true → opened ≡ true)
      → matches (nodes_of rows) ≡ matches (all_nodes_in cs)
      → matches (nodes_of (if has_kids cs && opened then rows else [])) ≡ matches (all_nodes_in cs)
  unfolding has_kids nodes_of all_nodes matches any_match
  below_node empty opened rows w h = refl
  below_node (more c cs) true rows w h = h
  below_node (more c cs) false rows w h = elim (Bool-cases (any_match_in (more c cs))) [
    | inl e ↦ (let bad : false ≡ true = w e in cc bad)
    | inr e ↦ sym (no_matches_in (more c cs) e)
  ]

  mutual
    unfolding walk_node all_nodes nodes_of

    walk_node-matches :
        (marks : Address → Bool) (n : Node fl.F) (a : Address) (parent : Option Address)
        (path : Text) (depth : ℕ) (is_last : Bool)
        → IsMarked any_match marks n a
        → matches (nodes_of (walk_node marks n a parent path depth is_last)) ≡ matches (all_nodes n)
    walk_node-matches marks (node m k t v n cs) a parent path depth is_last (is_marked h below) =
        matches-same (node m k t v n cs) _ (all_nodes_in cs) (
          below_node cs (marks a) (walk_children marks cs a 0 (node_path path m) (depth + 1))
            (λ e. h (any_match-above m k t v n cs e))
            (walk_children-matches marks cs a 0 (node_path path m) (depth + 1) below))

    walk_children-matches :
        (marks : Address → Bool) (cs : Nodes fl.F) (a : Address) (i : ℕ) (own : Text) (depth : ℕ)
        → AllMarked any_match marks cs a i
        → matches (nodes_of (walk_children marks cs a i own depth)) ≡ matches (all_nodes_in cs)
    walk_children-matches marks empty a i own depth no_children = refl
    walk_children-matches marks (more c cs) a i own depth (more_children h hs) =
        let path = child_path own (name c) i in
        let rows = walk_node marks c (i ∷ a) (some a) path depth (not (has_kids cs)) in
        let rest = walk_children marks cs a (i + 1) own depth in
        rw
          (
            nodes_of-append rows rest,
            matches-append (nodes_of rows) (nodes_of rest),
            matches-append (all_nodes c) (all_nodes_in cs),
            walk_node-matches marks c (i ∷ a) (some a) path depth (not (has_kids cs)) h,
            walk_children-matches marks cs a (i + 1) own depth hs,
          )
          refl

  -- With a filter, the rows show the nodes that match, all of them, in document order.
  pub rows_of-matches :
      (root : Option (Node fl.F)) (marks : Address → Bool)
      → 0 < length filter
      → nodes_of (rows_of fl to_lower filter root (marked fl to_lower filter root marks))
        ≡ matches (tree_nodes root)
  unfolding rows_of marked tree_nodes matches nodes_of
  rows_of-matches none marks pos = refl
  rows_of-matches (some root) marks pos =
      rw (eq_false (length filter) 0 (omega arith), nodes_of-keep_matches)
        (walk_node-matches _ root [] none [] 0 true
          (mark_ancestors-MarksNode root [] marks).node_marked)
