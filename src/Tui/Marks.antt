-- ===== src/Tui/Marks.antt =====
-- Which nodes have to be expanded for all wanted nodes to be seen: those that are wanted themselves.
use stellar_xdr_lens.Prelude.{
  ◌∷◌, ◌++◌, [], ◌+◌, ◌≡◌, suc, true, refl, List, Bool, Text, ap, if-both, length, text_eq_refl,
  text_eq, ℕ, none, some, Option,
}
use stellar_xdr_lens.Tree.Value.{Node, node, Nodes, Kind, more, Val, empty}
use stellar_xdr_lens.Tui.Rows.{Address, put, TreeRow}

abbrev pub Keeps : (Address → Bool) → (Address → Bool) → Type 0
Keeps old new = (x : Address) → old x ≡ true → new x ≡ true

pub put-Keeps : (a : Address) (marks : Address → Bool) → Keeps marks (put a true marks)
unfolding put
put-Keeps a marks x h = if-both (text_eq x a) refl h

pub put_self : (a : Address) (b : Bool) (marks : Address → Bool) → put a b marks a ≡ b
unfolding put
put_self a b marks = rw (text_eq_refl a) refl

module _ {F : Type 0} (wants : Node F → Bool) where
  -- Every node of the tree that is wanted is expanded.
  mutual
    pub data IsMarked (marks : Address → Bool) : Node F → Address → Type 0 where
      is_marked :
          {m : Text} {k : Kind} {t : Text} {v : Val F} {n : Text} {cs : Nodes F} {a : Address}
          → (wants (node m k t v n cs) ≡ true → marks a ≡ true)
          → AllMarked marks cs a 0
          → IsMarked marks (node m k t v n cs) a

    pub data AllMarked (marks : Address → Bool) : Nodes F → Address → ℕ → Type 0 where
      no_children : {a : Address} {i : ℕ} → AllMarked marks empty a i
      more_children :
          {c : Node F} {cs : Nodes F} {a : Address} {i : ℕ}
          → IsMarked marks c (i ∷ a)
          → AllMarked marks cs a (i + 1)
          → AllMarked marks (more c cs) a i

  mutual
    pub IsMarked-Keeps :
        {old new : Address → Bool}
        → Keeps old new
        → {c : Node F} {a : Address} → IsMarked old c a
        → IsMarked new c a
    IsMarked-Keeps keeps (is_marked h below) =
        is_marked (λ w. keeps _ (h w)) (AllMarked-Keeps keeps below)

    pub AllMarked-Keeps :
        {old new : Address → Bool}
        → Keeps old new
        → {cs : Nodes F} {a : Address} {i : ℕ} → AllMarked old cs a i
        → AllMarked new cs a i
    AllMarked-Keeps keeps no_children = no_children
    AllMarked-Keeps keeps (more_children h hs) =
        more_children (IsMarked-Keeps keeps h) (AllMarked-Keeps keeps hs)

-- The nodes of a tree in document order.
unfoldable mutual
  pub all_nodes : {F : Type 0} → Node F → List (Node F)
  all_nodes (node m k t v n cs) = node m k t v n cs ∷ all_nodes_in cs

  pub all_nodes_in : {F : Type 0} → Nodes F → List (Node F)
  all_nodes_in empty = []
  all_nodes_in (more c cs) = all_nodes c ++ all_nodes_in cs

unfoldable pub tree_nodes : {F : Type 0} → Option (Node F) → List (Node F)
unfolding all_nodes
tree_nodes none = []
tree_nodes (some root) = all_nodes root

-- The nodes of the rows.
unfoldable pub nodes_of : {F : Type 0} → List (TreeRow F) → List (Node F)
nodes_of [] = []
nodes_of (r ∷ rs) = r.row_node ∷ nodes_of rs

pub nodes_of-append :
    {F : Type 0} (xs ys : List (TreeRow F)) → nodes_of (xs ++ ys) ≡ nodes_of xs ++ nodes_of ys
unfolding nodes_of
nodes_of-append [] ys = refl
nodes_of-append (x ∷ xs) ys = ap (λ l. x.row_node ∷ l) (nodes_of-append xs ys)

pub length-nodes_of : {F : Type 0} (rs : List (TreeRow F)) → length (nodes_of rs) ≡ length rs
unfolding nodes_of
length-nodes_of [] = refl
length-nodes_of (r ∷ rs) = ap suc (length-nodes_of rs)
