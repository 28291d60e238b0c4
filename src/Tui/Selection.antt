-- ===== src/Tui/Selection.antt =====
-- Any node can be selected: clear the filter, expand all, go to the top and then down.
use stellar_xdr_lens.Prelude.{
  ◌∷◌, [], ◌+◌, ◌≤◌, ◌<◌, ◌≡◌, refl, length, ℕ, arith, leb-false, ltb-true, ◌-◌, ◌∙◌, if◌then◌else◌,
  zero, suc, if-holds, leb, Bool-cases, Text, ltb, List, inl, codes, le_of_leb, inr, replicate,
  Option, lt_of_not_leb, ap, sym, ◌==◌, true,
}
use stellar_xdr_lens.Tui.Render.{window_start, window_end}
use stellar_xdr_lens.Tui.State.{
  TuiTree, move_down, visible_rows, move_top, set_filter, rebuild_rows, expand_all,
}
use stellar_xdr_lens.Tree.Value.{GoLib, Node}
use stellar_xdr_lens.Tui.Keys.{clear_filter, handle_keys, handle_key, press}
use stellar_xdr_lens.Tui.Shown.{Opened}
use stellar_xdr_lens.Tui.Marks.{tree_nodes, nodes_of, length-nodes_of}
use stellar_xdr_lens.Tui.Reached.{Opened-IsShown}
use stellar_xdr_lens.Tui.Expanded.{expand_all-whole}

-- The row under the cursor is on the screen.
pub record IsOnScreen {F : Type 0} (t : TuiTree F) : Type 0 where
  pub not_above : window_start t ≤ t.cursor
  pub not_below : t.cursor < window_end t

-- The cursor within the rows that the offset and the height leave.
record IsScrolled {F : Type 0} (t : TuiTree F) : Type 0 where
  is_row : t.cursor < length t.rows
  scrolled_down : t.scroll_offset ≤ t.cursor
  scrolled_up : t.cursor < t.scroll_offset + visible_rows t.height

IsScrolled-IsOnScreen : {F : Type 0} (t : TuiTree F) → IsScrolled t → IsOnScreen t
unfolding window_start window_end
IsScrolled-IsOnScreen t h = record {
  not_above =
      rw (leb-false (length t.rows) t.scroll_offset (omega (arith, h.is_row, h.scrolled_down)))
        h.scrolled_down;
  not_below =
      if-holds (λ n. t.cursor < n) (ltb (length t.rows) (t.scroll_offset + visible_rows t.height))
        h.is_row h.scrolled_up;
}

visible_rows-pos : (height : ℕ) → 0 < visible_rows height
unfolding visible_rows
visible_rows-pos height = ground arith

-- The offset that MoveDown leaves.
scroll_down_bounds :
    (c s v : ℕ)
    → 0 < v
    → s ≤ c
    → c < s + v
    → let s' = if leb (s + v) (c + 1) then (c + 1) + 1 - v else s in (s' ≤ c + 1) × (c + 1 < s' + v)
scroll_down_bounds c s v pos down up = elim (Bool-cases (leb (s + v) (c + 1))) [
  | inl e ↦ rw e (omega (arith, pos), omega (arith, le_of_leb (s + v) (c + 1) e))
  | inr e ↦ rw e (omega arith, omega (arith, lt_of_not_leb (s + v) (c + 1) e))
]

-- Some rows further down the same rows, and on the screen.
record Downward {F : Type 0} (t u : TuiTree F) (n : ℕ) : Type 0 where
  same_rows : u.rows ≡ t.rows
  moved_down : u.cursor ≡ t.cursor + n
  still_scrolled : IsScrolled u

move_down-Downward :
    {F : Type 0} (t : TuiTree F)
    → t.cursor + 1 < length t.rows
    → IsScrolled t
    → Downward t (move_down t) 1
unfolding move_down
move_down-Downward t lt h =
    let bounds =
      scroll_down_bounds t.cursor t.scroll_offset (visible_rows t.height)
        (visible_rows-pos t.height) h.scrolled_down h.scrolled_up in
    rw (ltb-true (t.cursor + 1) (length t.rows) lt) (record {
      same_rows = refl;
      moved_down = refl;
      still_scrolled = record { is_row = lt; scrolled_down = bounds.0; scrolled_up = bounds.1 };
    })

-- The keys that select the node at a place of the document.
abbrev pub keys_to : ℕ → List Text
keys_to i = codes "esc" ∷ codes "e" ∷ codes "g" ∷ replicate i (codes "j")

empty_text : (s : Text) → (length s == 0) ≡ true → s ≡ []
empty_text [] e = refl
empty_text (c ∷ s) e = ground (arith, e)

module _ (fl : GoLib) (to_lower : Text → Text) where
  downs :
      (n : ℕ) (t : TuiTree fl.F)
      → t.cursor + n < length t.rows
      → IsScrolled t
      → Downward t (handle_keys fl to_lower (replicate n (codes "j")) t) n
  unfolding handle_keys handle_key press
  downs zero t lt h = record { same_rows = refl; moved_down = omega arith; still_scrolled = h }
  downs (suc n) t lt h =
      let quiet = record t { status_msg = [] } in
      let scrolled : IsScrolled quiet = record {
        is_row = h.is_row;
        scrolled_down = h.scrolled_down;
        scrolled_up = h.scrolled_up;
      } in
      let first = move_down-Downward quiet (omega (arith, lt)) scrolled in
      let as_long : length (move_down quiet).rows ≡ length t.rows = ap length first.same_rows in
      let one_down : (move_down quiet).cursor ≡ t.cursor + 1 = first.moved_down in
      let later =
        downs n (move_down quiet) (omega (arith, lt, as_long, one_down)) first.still_scrolled in
      let rest_down : (handle_keys fl to_lower (replicate n (codes "j")) (move_down quiet)).cursor
          ≡ (move_down quiet).cursor + n =
        later.moved_down in
      record {
        same_rows = later.same_rows ∙ first.same_rows;
        moved_down = omega (arith, rest_down, one_down);
        still_scrolled = later.still_scrolled;
      }

  -- After the top.
  move_top-IsScrolled : (t : TuiTree fl.F) → 0 < length t.rows → IsScrolled (move_top t)
  unfolding move_top
  move_top-IsScrolled t pos = record {
    is_row = pos;
    scrolled_down = omega arith;
    scrolled_up = omega (arith, visible_rows-pos t.height);
  }

  cleared : (t : TuiTree fl.F) → (clear_filter fl to_lower t).filter ≡ []
  unfolding clear_filter set_filter rebuild_rows
  cleared t = elim (Bool-cases (length t.filter == 0)) [
    | inl e ↦ rw e (empty_text t.filter e)
    | inr e ↦ rw e refl
  ]

  cleared-root : (t : TuiTree fl.F) → (clear_filter fl to_lower t).root ≡ t.root
  unfolding clear_filter set_filter rebuild_rows
  cleared-root t = elim (Bool-cases (length t.filter == 0)) [
    | inl e ↦ rw e refl
    | inr e ↦ rw e refl
  ]

  -- From every state of an explorer, with any filter and any nodes expanded, the keys Escape, e and g and
  -- then j as often as there are nodes in front of it select any node of the tree: every node has a
  -- row, the cursor is on its row, and the row is on the screen.
  pub keys_to-selects :
      (root : Option (Node fl.F)) (t : TuiTree fl.F) (i : ℕ)
      → Opened fl to_lower root t
      → i < length (tree_nodes root)
      → let u = handle_keys fl to_lower (keys_to i) t in
        (nodes_of u.rows ≡ tree_nodes root) × ((u.cursor ≡ i) × IsOnScreen u)
  unfolding handle_keys handle_key press
  keys_to-selects root t i reached lt =
      let a = clear_filter fl to_lower (record t { status_msg = [] }) in
      let b = expand_all fl to_lower (record a { status_msg = [] }) in
      let same : a.root ≡ root =
        cleared-root (record t { status_msg = [] })
        ∙ (Opened-IsShown fl to_lower reached).same_root in
      let whole : nodes_of b.rows ≡ tree_nodes root =
        expand_all-whole fl to_lower (record a { status_msg = [] })
          (cleared (record t { status_msg = [] }))
        ∙ ap tree_nodes same in
      let many : length b.rows ≡ length (tree_nodes root) =
        sym (length-nodes_of b.rows) ∙ ap length whole in
      let c = move_top (record b { status_msg = [] }) in
      let down =
        downs i c (omega (arith, lt, many))
          (move_top-IsScrolled (record b { status_msg = [] }) (omega (arith, lt, many))) in
      (
        ap nodes_of down.same_rows ∙ whole,
        (omega (arith, down.moved_down), IsScrolled-IsOnScreen _ down.still_scrolled),
      )
