-- ===== src/Tui/Render.antt =====
-- Render: the screen as text. The arrows are UTF-8.
use stellar_xdr_lens.Prelude.{
  ◌∷◌, ◌++◌, [], ◌+◌, ◌-◌, if◌then◌else◌, ◌==◌, zero, suc, none, some, Text, ℕ, Bool, List, Option,
  codes, leb, length, ltb, get_elem?, take, drop, itoa,
}
use stellar_xdr_lens.Tree.Value.{
  GoLib, show_val, Node, name, node, note, to_list, scalar, list, struct,
}
use stellar_xdr_lens.Tui.State.{TuiTree, visible_rows}
use stellar_xdr_lens.Tui.Rows.{TreeRow}

-- format.Palette.
pub record Palette : Type 0 where
  pub key : Text
  pub type_colour : Text
  pub str_colour : Text
  pub num_colour : Text
  pub note_colour : Text
  pub dim : Text
  pub add : Text
  pub remove : Text
  pub change : Text
  pub reset : Text

unfoldable pub repeat_text : ℕ → Text → Text
repeat_text zero s = []
repeat_text (suc n) s = s ++ repeat_text n s

abbrev pub newline : Text
newline = b'\n' ∷ []

-- The marker of a row with children.
abbrev pub open_arrow : Text
open_arrow = 0xe2 ∷ 0x96 ∷ 0xbc ∷ b' ' ∷ []

abbrev pub shut_arrow : Text
shut_arrow = 0xe2 ∷ 0x96 ∷ 0xb6 ∷ b' ' ∷ []

abbrev pub key_line : Text
key_line =
    codes "["
    ++ (0xe2 ∷ 0x86 ∷ 0x91 ∷ b'/' ∷ 0xe2 ∷ 0x86 ∷ 0x93 ∷ []
        ++ codes "/j/k: nav | Enter/Space: toggle | e: expand all | c: collapse all | q: quit]")

-- Where the rows on the screen begin and end.
unfoldable pub window_start : {F : Type 0} → TuiTree F → ℕ
window_start t = if leb (length t.rows) t.scroll_offset then 0 else t.scroll_offset

unfoldable pub window_end : {F : Type 0} → TuiTree F → ℕ
unfolding visible_rows
window_end t =
    let end_ = t.scroll_offset + visible_rows t.height in
    if ltb (length t.rows) end_ then length t.rows else end_

unfoldable pub window : {F : Type 0} → TuiTree F → List (TreeRow F)
unfolding window_start window_end
window t = take (window_end t - window_start t) (drop (window_start t) t.rows)

module _ (fl : GoLib) (p : Palette) where
  unfoldable pub node_suffix : Node fl.F → Text
  unfolding show_val
  node_suffix (node m scalar t v n cs) =
      codes ": "
      ++ (p.str_colour
          ++ (show_val fl v
              ++ (p.reset
                  ++ (if length n == 0
                      then []
                      else b' ' ∷ (p.note_colour ++ (b'(' ∷ (n ++ (b')' ∷ p.reset))))))))
  node_suffix (node m list t v n cs) =
      b' ' ∷ (p.dim ++ (b'[' ∷ (itoa (length (to_list cs)) ++ (b']' ∷ p.reset))))
  node_suffix (node m struct t v n cs) =
      if length t == 0 then [] else b' ' ∷ (p.dim ++ (t ++ p.reset))

  unfoldable pub row_line : Bool → TreeRow fl.F → Text
  unfolding repeat_text node_suffix
  row_line selected r =
      let marker =
        if r.has_children then (if r.is_expanded then open_arrow else shut_arrow) else codes "  " in
      let label = if length (name r.row_node) == 0 then codes "(item)" else name r.row_node in
      (if selected then codes "> " else codes "  ")
      ++ (repeat_text r.depth (codes "  ")
          ++ (p.dim
              ++ (marker
                  ++ (p.reset
                      ++ ((if selected then p.change else p.key)
                          ++ (label ++ (p.reset ++ node_suffix r.row_node)))))))

  unfoldable pub row_lines : List (TreeRow fl.F) → ℕ → ℕ → Text
  unfolding row_line
  row_lines [] i cursor = []
  row_lines (r ∷ rs) i cursor = row_line (i == cursor) r ++ (newline ++ row_lines rs (i + 1) cursor)

  unfoldable pub row_status : Option (TreeRow fl.F) → Text
  row_status none = codes "No nodes"
  row_status (some r) =
      let n = note r.row_node in
      r.path ++ (if length n == 0 then [] else codes " (" ++ (n ++ codes ")"))

  unfoldable pub render : TuiTree fl.F → Text
  unfolding window_start window row_lines row_status
  render t =
      let status =
        if length t.status_msg == 0 then row_status (get_elem? t.rows t.cursor) else t.status_msg in
      p.type_colour
      ++ (codes "=== "
          ++ (t.value_type
              ++ (codes " Explorer ==="
                  ++ (p.reset
                      ++ (newline
                          ++ (row_lines (window t) (window_start t) t.cursor
                              ++ (p.dim
                                  ++ (codes "--- "
                                      ++ (status
                                          ++ (codes " ---"
                                              ++ (p.reset
                                                  ++ (newline
                                                      ++ (p.dim
                                                          ++ (key_line
                                                            ++ (p.reset ++ newline)))))))))))))))
