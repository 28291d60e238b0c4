-- ===== src/Tests/Explorer.antt =====
-- The explorer of tui_tree.go on a small tree.
use stellar_xdr_lens.Tui.Shown.{opens, goes_on, presses, resizes, IsShown, Opened}
use stellar_xdr_lens.Prelude.{
  ◌∷◌, [], ◌≡◌, some, refl, List, Text, codes, map, ◌<◌, length, arith, pos,
}
use stellar_xdr_lens.Tree.Value.{Node, node, scalar, struct, nil, uint, empty, more, list}
use stellar_xdr_lens.Tui.Keys.{read_key, handle_keys, handle_key, run}
use stellar_xdr_lens.Tui.State.{TuiTree, new_tui_tree, set_dimensions}
use stellar_xdr_lens.Tests.Trees.{small_go}
use stellar_xdr_lens.Tui.Rows.{TreeRow}
use stellar_xdr_lens.Tui.Ends.{Ended, run-Ended}
use stellar_xdr_lens.Tui.Marks.{tree_nodes, nodes_of}
use stellar_xdr_lens.Tui.Render.{Palette}
use stellar_xdr_lens.Tui.Selection.{keys_to, IsOnScreen, keys_to-selects}
use stellar_xdr_lens.Tui.Reached.{Opened-IsShown}

abbrev leaf : Text → Node small_go.F
leaf m = node m scalar [] (uint 7) [] empty

-- A root with a list of two items, one of which has a field, and a field.
abbrev sample : Node small_go.F
sample = node (codes "Tx") struct (codes "Transaction") nil [] (
    more
      (node (codes "Ops") list [] nil []
        (more (node [] struct [] nil [] (more (leaf (codes "Fee")) empty)) (more (leaf []) empty)))
      (more (leaf (codes "Seq")) empty))

abbrev opened : TuiTree small_go.F
opened = new_tui_tree small_go (λ s. s) (codes "Transaction") (some sample)

abbrev paths_of : List (TreeRow small_go.F) → List Text
paths_of rs = map (λ r. r.path) rs

first_rows :
    paths_of opened.rows
    ≡ codes "Tx" ∷ codes "Tx.Ops" ∷ codes "Tx.Ops[0]" ∷ codes "Tx.Ops[1]" ∷ codes "Tx.Seq" ∷ []
unfolding new_tui_tree
first_rows = refl

abbrev moved : TuiTree small_go.F
moved =
    handle_keys small_go (λ s. s)
      (codes "/Fee" ∷ codes "esc" ∷ codes "e" ∷ codes "j" ∷ codes "h" ∷ []) opened

moved_rows : paths_of moved.rows ≡ codes "Tx" ∷ codes "Tx.Ops" ∷ codes "Tx.Seq" ∷ []
unfolding new_tui_tree handle_keys
moved_rows = refl

moved_cursor : moved.cursor ≡ 1
unfolding new_tui_tree handle_keys
moved_cursor = refl

arrow_down :
    read_key (record { buffered = []; pieces = (27 ∷ b'[' ∷ b'B' ∷ b'q' ∷ []) ∷ [] })
    ≡ some (codes "down", record { buffered = b'q' ∷ []; pieces = [] })
unfolding read_key
arrow_down = refl

-- After a filter that one node matches, and a smaller terminal.
abbrev filtered :
    Opened small_go
      (λ s. s)
      (some sample)
      (set_dimensions (pos 40) (pos 5) (handle_key small_go (λ s. s) (codes "/Fee") opened))
filtered =
    goes_on (goes_on (opens (codes "Transaction")) (presses (codes "/Fee")))
      (resizes (pos 40) (pos 5))

Opened-IsShown_example :
    IsShown small_go
      (λ s. s)
      (some sample)
      (set_dimensions (pos 40) (pos 5) (handle_key small_go (λ s. s) (codes "/Fee") opened))
Opened-IsShown_example = Opened-IsShown small_go (λ s. s) filtered

five_nodes : 4 < length (tree_nodes (some sample))
unfolding tree_nodes
five_nodes = omega arith

keys_to-selects_example :
    let u =
      handle_keys small_go
        (λ s. s)
        (keys_to 4)
        (set_dimensions (pos 40) (pos 5) (handle_key small_go (λ s. s) (codes "/Fee") opened)) in
    (nodes_of u.rows ≡ tree_nodes (some sample)) × ((u.cursor ≡ 4) × IsOnScreen u)
keys_to-selects_example =
    keys_to-selects small_go (λ s. s) (some sample)
      (set_dimensions (pos 40) (pos 5) (handle_key small_go (λ s. s) (codes "/Fee") opened)) 4
      filtered five_nodes

abbrev plain : Palette
plain = record {
  key = [];
  type_colour = [];
  str_colour = [];
  num_colour = [];
  note_colour = [];
  dim = [];
  add = [];
  remove = [];
  change = [];
  reset = [];
}

run-Ended_example :
    Ended small_go
      (λ s. s)
      plain
      (record { buffered = []; pieces = codes "jj" ∷ codes "q" ∷ [] })
      opened
      (run small_go (λ s. s) plain (codes "jj" ∷ codes "q" ∷ []) opened)
run-Ended_example = run-Ended small_go (λ s. s) plain (codes "jj" ∷ codes "q" ∷ []) opened
