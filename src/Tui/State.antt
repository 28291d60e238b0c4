-- ===== src/Tui/State.antt =====
-- TUITree and its operations. The terminal's width and height are positive: SetDimensions takes no
-- other ones. What the palette, the input and the output are for stands elsewhere.
use stellar_xdr_lens.Prelude.{
  ◌∷◌, ◌++◌, [], ◌+◌, ◌-◌, ◌&&◌, ◌==◌, if◌then◌else◌, zero, suc, true, false, none, some, Option,
  Text, length, ltb, ℕ, ℤ, List, codes, get_elem?, leb, Bool, itoa, not, text_eq, pos, negsuc,
}
use stellar_xdr_lens.Tree.Value.{GoLib, Node, Nodes, more, node, empty}
use stellar_xdr_lens.Tui.Rows.{Address, put, TreeRow, has_kids, marked, rows_of}

pub record TuiTree (F : Type 0) : Type 0 where
  pub value_type : Text
  pub root : Option (Node F)
  pub expanded_state : Address → Bool
  pub rows : List (TreeRow F)
  pub cursor : ℕ
  pub scroll_offset : ℕ
  pub height : ℕ
  pub width : ℕ
  pub filter : Text
  pub quit : Bool
  pub status_msg : Text

-- The children that have children.
unfoldable pub expand_children : {F : Type 0} → Nodes F → ℕ → (Address → Bool) → Address → Bool
unfolding put has_kids
expand_children empty i marks = marks
expand_children (more (node m k t v n cs) rest) i marks =
    expand_children rest (i + 1) (if has_kids cs then put (i ∷ []) true marks else marks)

unfoldable pub first_marks : {F : Type 0} → Option (Node F) → Address → Bool
unfolding put expand_children
first_marks none = λ _. false
first_marks (some (node m k t v n cs)) = expand_children cs 0 (put [] true (λ _. false))

-- markAll.
unfoldable mutual
  unfolding put

  pub mark_all : {F : Type 0} → Node F → Address → (Address → Bool) → Address → Bool
  mark_all (node m k t v n empty) a marks = marks
  mark_all (node m k t v n (more c cs)) a marks =
      mark_all_children (more c cs) a 0 (put a true marks)

  pub mark_all_children : {F : Type 0} → Nodes F → Address → ℕ → (Address → Bool) → Address → Bool
  mark_all_children empty a i marks = marks
  mark_all_children (more c cs) a i marks =
      mark_all_children cs a (i + 1) (mark_all c (i ∷ a) marks)

unfoldable pub mark_whole : {F : Type 0} → Option (Node F) → (Address → Bool) → Address → Bool
unfolding mark_all
mark_whole none marks = marks
mark_whole (some root) marks = mark_all root [] marks

unfoldable pub collapsed : {F : Type 0} → Option (Node F) → Address → Bool
unfolding put
collapsed none = λ _. false
collapsed (some root) = put [] true (λ _. false)

-- The loop that looks for the row of a node, and is left at the first.
unfoldable pub row_at : {F : Type 0} → Address → List (TreeRow F) → ℕ → Option ℕ
unfolding text_eq
row_at a [] i = none
row_at a (r ∷ rs) i =
    let later = row_at a rs (i + 1) in if text_eq r.address a then some i else later

unfoldable pub visible_rows : ℕ → ℕ
visible_rows height = if ltb (height - 3) 1 then 1 else height - 3

-- A dimension that is positive replaces the old one.
unfoldable pub positive_or : ℕ → ℤ → ℕ
positive_or old (pos zero) = old
positive_or old (pos (suc n)) = suc n
positive_or old (negsuc n) = old

module _ {F : Type 0} where
  unfoldable pub set_dimensions : ℤ → ℤ → TuiTree F → TuiTree F
  unfolding positive_or
  set_dimensions w h t = record t { width = positive_or t.width w; height = positive_or t.height h }

  unfoldable pub move_up : TuiTree F → TuiTree F
  move_up t = elim t.cursor [
    | zero ↦ t
    | suc c ↦ record t {
      cursor = c;
      scroll_offset = if ltb c t.scroll_offset then c else t.scroll_offset;
    }
  ]

  unfoldable pub move_down : TuiTree F → TuiTree F
  unfolding visible_rows
  move_down t =
      let c = t.cursor + 1 in
      let seen = visible_rows t.height in
      if ltb c (length t.rows)
      then record t {
        cursor = c;
        scroll_offset = if leb (t.scroll_offset + seen) c then (c + 1) - seen else t.scroll_offset;
      }
      else t

  unfoldable pub move_top : TuiTree F → TuiTree F
  move_top t = record t { cursor = 0; scroll_offset = 0 }

  unfoldable pub move_bottom : TuiTree F → TuiTree F
  unfolding visible_rows
  move_bottom t =
      let c = length t.rows - 1 in
      let seen = visible_rows t.height in
      if length t.rows == 0
      then t
      else record t { cursor = c; scroll_offset = if leb seen c then (c + 1) - seen else 0 }

  -- The cursor on the row that was found, if one was.
  unfoldable pub select : Option ℕ → TuiTree F → TuiTree F
  select none t = t
  select (some i) t = record t { cursor = i }

  unfoldable pub select_above : Option ℕ → TuiTree F → TuiTree F
  select_above none t = t
  select_above (some i) t = record t {
    cursor = i;
    scroll_offset = if ltb i t.scroll_offset then i else t.scroll_offset;
  }

  unfoldable pub to_parent : Option Address → TuiTree F → TuiTree F
  unfolding select_above row_at
  to_parent none t = t
  to_parent (some a) t = select_above (row_at a t.rows 0) t

module _ (fl : GoLib) (to_lower : Text → Text) where
  -- A cursor behind the rows goes to the last, and to 0 where there is none; without a tree it stays.
  unfoldable pub kept_cursor : Option (Node fl.F) → ℕ → ℕ → ℕ
  kept_cursor none n cursor = cursor
  kept_cursor (some root) n cursor = if leb n cursor then n - 1 else cursor

  unfoldable pub rebuild_rows : TuiTree fl.F → TuiTree fl.F
  unfolding marked rows_of kept_cursor
  rebuild_rows t =
      let marks = marked fl to_lower t.filter t.root t.expanded_state in
      let rows = rows_of fl to_lower t.filter t.root marks in
      record t {
        expanded_state = marks;
        rows = rows;
        cursor = kept_cursor t.root (length rows) t.cursor;
      }

  unfoldable pub empty_tree : Text → Option (Node fl.F) → TuiTree fl.F
  unfolding first_marks
  empty_tree type_name root = record {
    value_type = type_name;
    root = root;
    expanded_state = first_marks root;
    rows = [];
    cursor = 0;
    scroll_offset = 0;
    height = 24;
    width = 80;
    filter = [];
    quit = false;
    status_msg = [];
  }

  unfoldable pub new_tui_tree : Text → Option (Node fl.F) → TuiTree fl.F
  unfolding empty_tree rebuild_rows
  new_tui_tree type_name root = rebuild_rows (empty_tree type_name root)

  unfoldable pub toggle : Option (TreeRow fl.F) → TuiTree fl.F → TuiTree fl.F
  unfolding put rebuild_rows select row_at
  toggle none t = t
  toggle (some r) t =
      let marks = put r.address (not (t.expanded_state r.address)) t.expanded_state in
      let t' = rebuild_rows (record t { expanded_state = marks }) in
      let chosen = select (row_at r.address t'.rows 0) t' in if r.has_children then chosen else t

  unfoldable pub toggle_selected : TuiTree fl.F → TuiTree fl.F
  unfolding toggle
  toggle_selected t = toggle (get_elem? t.rows t.cursor) t

  unfoldable pub collapse : Option (TreeRow fl.F) → TuiTree fl.F → TuiTree fl.F
  unfolding put rebuild_rows to_parent
  collapse none t = t
  collapse (some r) t =
      let folded =
        rebuild_rows (record t { expanded_state = put r.address false t.expanded_state }) in
      let above = to_parent r.parent t in
      if r.has_children && t.expanded_state r.address then folded else above

  unfoldable pub collapse_selected : TuiTree fl.F → TuiTree fl.F
  unfolding collapse
  collapse_selected t = collapse (get_elem? t.rows t.cursor) t

  unfoldable pub expand_all : TuiTree fl.F → TuiTree fl.F
  unfolding mark_whole rebuild_rows
  expand_all t =
      let t' = rebuild_rows (record t { expanded_state = mark_whole t.root t.expanded_state }) in
      record t' { status_msg = codes "All nodes expanded" }

  unfoldable pub collapse_all : TuiTree fl.F → TuiTree fl.F
  unfolding collapsed rebuild_rows
  collapse_all t =
      let t' =
        rebuild_rows
          (record t { expanded_state = collapsed t.root; cursor = 0; scroll_offset = 0 }) in
      record t' { status_msg = codes "All nodes collapsed" }

  unfoldable pub set_filter : Text → TuiTree fl.F → TuiTree fl.F
  unfolding rebuild_rows
  set_filter q t =
      let t' = rebuild_rows (record t { filter = q; cursor = 0; scroll_offset = 0 }) in
      record t' {
        status_msg =
            if length q == 0
            then codes "Filter cleared"
            else codes "Filter: "
              ++ (fl.quote q ++ (codes " (" ++ (itoa (length t'.rows) ++ codes " matching)")));
      }
