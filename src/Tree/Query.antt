-- ===== src/Tree/Query.antt =====
-- Child and Find, and the rendering of a node.
use stellar_xdr_lens.Prelude.{
  ◌∷◌, ◌++◌, if◌then◌else◌, ◌==◌, [], none, some, Option, Text, ℕ, List, get_elem?, pos, text_eq,
  length, negsuc, codes, itoa,
}
use stellar_xdr_lens.Tree.Path.{split_path, PathSeg}
use stellar_xdr_lens.Tree.Value.{
  GoLib, Node, children, show_val, node, is_nil, name, to_list, scalar, list, struct,
}

module _ {F : Type 0} where
  -- The first of some children with a name.
  unfoldable pub find_child : Text → List (Node F) → Option (Node F)
  find_child key [] = none
  find_child key (c ∷ cs) =
      let later = find_child key cs in if text_eq (name c) key then some c else later

  unfoldable pub child : Node F → Text → Option (Node F)
  unfolding find_child
  child n key = find_child key (children n)

  -- One segment of Find.
  unfoldable pub step_index : ℕ → Option (Node F) → Option (Node F)
  step_index i none = none
  step_index i (some n) = get_elem? (children n) i

  unfoldable pub step : Node F → PathSeg → Option (Node F)
  unfolding child step_index
  step n seg = elim seg.index [
    | pos i ↦ step_index i (if length seg.seg_name == 0 then some n else child n seg.seg_name)
    | negsuc i ↦ child n seg.seg_name
  ]

  unfoldable pub find_segs : Option (Node F) → List PathSeg → Option (Node F)
  unfolding step
  find_segs cur [] = cur
  find_segs none (s ∷ segs) = none
  find_segs (some n) (s ∷ segs) = find_segs (step n s) segs

  -- Find.
  unfoldable pub find : Node F → Text → Option (Node F)
  unfolding find_segs split_path
  find n path = find_segs (some n) (split_path path)

module _ (fl : GoLib) where
  -- Node.String.
  unfoldable pub node_string : Node fl.F → Text
  unfolding show_val
  node_string (node m scalar t v n cs) =
      if is_nil v
      then n
      else if length n == 0
      then show_val fl v
      else show_val fl v ++ (codes " (" ++ (n ++ codes ")"))
  node_string (node m list t v n cs) = b'[' ∷ (itoa (length (to_list cs)) ++ codes " item(s)]")
  node_string (node m struct t v n cs) = if length t == 0 then codes "{...}" else t
