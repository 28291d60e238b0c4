-- ===== src/Tui/Shown.antt =====
-- What holds of the explorer after any keys and any changes of the terminal's size.
use stellar_xdr_lens.Prelude.{
  ◌∷◌, [], ◌-◌, ◌<◌, ◌≡◌, ◌⊎◌, if◌then◌else◌, some, refl, Text, Option, ℕ, ℤ, leb, length, ◌+◌,
  ◌==◌, zero, suc, true, Bool-cases, ltb, List, arith, if-holds, inl, inr, lt_of_ltb, lt_of_not_leb,
  text_eq, none, ap,
}
use stellar_xdr_lens.Tree.Value.{GoLib, Node}
use stellar_xdr_lens.Tui.State.{
  TuiTree, rebuild_rows, move_down, move_up, new_tui_tree, set_dimensions, move_bottom, row_at,
  empty_tree, kept_cursor,
}
use stellar_xdr_lens.Tui.Keys.{handle_key}
use stellar_xdr_lens.Tui.Rows.{Address, rows_of, TreeRow}
use stellar_xdr_lens.Tui.Marks.{nodes_of, tree_nodes}
use stellar_xdr_lens.Tui.Matches.{matches, rows_of-matches}

-- What can happen to the explorer: a key, or other dimensions of the terminal.
pub data TuiEvent : Type 0 where
  pressed : Text → TuiEvent
  resized : ℤ → ℤ → TuiEvent

pub row_at-lt :
    {F : Type 0} (a : Address) (rs : List (TreeRow F)) (i j : ℕ)
    → row_at a rs i ≡ some j
    → j < i + length rs
unfolding row_at
row_at-lt a [] i j e = cc e
row_at-lt a (r ∷ rs) i j e = elim (Bool-cases (text_eq r.address a)) [
  | inl k ↦ (let found : some i ≡ some j = rw k at e in ground arith)
  | inr k ↦
      (let later : row_at a rs (i + 1) ≡ some j = rw k at e in
        omega (arith, row_at-lt a rs (i + 1) j later))
]

module _ (fl : GoLib) (to_lower : Text → Text) where
  pub data TuiStep (t : TuiTree fl.F) : TuiEvent → TuiTree fl.F → Type 0 where
    presses : (key : Text) → TuiStep t (pressed key) (handle_key fl to_lower key t)
    resizes : (w h : ℤ) → TuiStep t (resized w h) (set_dimensions w h t)

  -- The states that an explorer of a tree comes to.
  pub data Opened (root : Option (Node fl.F)) : TuiTree fl.F → Type 0 where
    opens : (type_name : Text) → Opened root (new_tui_tree fl to_lower type_name root)
    goes_on : {t u : TuiTree fl.F} {e : TuiEvent} → Opened root t → TuiStep t e u → Opened root u

  -- The rows are those of the tree, the filter and the expanded nodes, the cursor is on one of them if
  -- there are any, and with a filter the nodes shown are those that match.
  pub record IsShown (root : Option (Node fl.F)) (t : TuiTree fl.F) : Type 0 where
    pub same_root : t.root ≡ root
    pub rows_shown : t.rows ≡ rows_of fl to_lower t.filter root t.expanded_state
    pub cursor_shown : (t.cursor < length t.rows) ⊎ (t.cursor ≡ 0)
    pub matches_shown :
        0 < length t.filter → nodes_of t.rows ≡ matches fl to_lower t.filter (tree_nodes root)

  kept_cursor-shown :
      (root : Option (Node fl.F)) (n c : ℕ)
      → (root ≡ none → c ≡ 0)
      → (kept_cursor fl to_lower root n c < n) ⊎ (kept_cursor fl to_lower root n c ≡ 0)
  unfolding kept_cursor
  kept_cursor-shown none n c h = inr (h refl)
  kept_cursor-shown (some root) n c h = elim (Bool-cases (leb n c)) [
    | inl e ↦ rw e (ground arith)
    | inr e ↦ rw e (inl (lt_of_not_leb n c e))
  ]

  -- Without a tree there are no rows.
  pub IsShown-none :
      {root : Option (Node fl.F)} (t : TuiTree fl.F) → IsShown root t → root ≡ none → t.cursor ≡ 0
  unfolding rows_of
  IsShown-none t h e =
      let no_rows : t.rows ≡ [] = rw e at h.rows_shown in
      let none_shown : length t.rows ≡ 0 = ap length no_rows in
      elim h.cursor_shown [ inl lt ↦ absurd (omega (arith, lt, none_shown)) | inr z ↦ z ]

  pub rebuild_rows-IsShown :
      (root : Option (Node fl.F)) (t : TuiTree fl.F)
      → t.root ≡ root
      → (root ≡ none → t.cursor ≡ 0)
      → IsShown root (rebuild_rows fl to_lower t)
  unfolding rebuild_rows
  rebuild_rows-IsShown root t e z = record {
    same_root = e;
    rows_shown = rw e refl;
    cursor_shown = rw e (kept_cursor-shown root _ t.cursor z);
    matches_shown = λ pos. rw e (rows_of-matches fl to_lower t.filter root t.expanded_state pos);
  }

  pub new_tui_tree-IsShown :
      (root : Option (Node fl.F)) (type_name : Text)
      → IsShown root (new_tui_tree fl to_lower type_name root)
  unfolding new_tui_tree empty_tree
  new_tui_tree-IsShown root type_name =
      rebuild_rows-IsShown root (empty_tree fl to_lower type_name root) refl (λ _. refl)

  module _ {root : Option (Node fl.F)} where
    pub at_cursor :
        (t : TuiTree fl.F) (c s : ℕ)
        → (c < length t.rows) ⊎ (c ≡ 0)
        → IsShown root t
        → IsShown root (record t { cursor = c; scroll_offset = s })
    at_cursor t c s k h = record {
      same_root = h.same_root;
      rows_shown = h.rows_shown;
      cursor_shown = k;
      matches_shown = h.matches_shown;
    }

    pub with_status :
        (t : TuiTree fl.F) (s : Text) → IsShown root t → IsShown root (record t { status_msg = s })
    with_status t s h = record {
      same_root = h.same_root;
      rows_shown = h.rows_shown;
      cursor_shown = h.cursor_shown;
      matches_shown = h.matches_shown;
    }

    pub with_quit : (t : TuiTree fl.F) → IsShown root t → IsShown root (record t { quit = true })
    with_quit t h = record {
      same_root = h.same_root;
      rows_shown = h.rows_shown;
      cursor_shown = h.cursor_shown;
      matches_shown = h.matches_shown;
    }

    pub set_dimensions-IsShown :
        (w h : ℤ) (t : TuiTree fl.F) → IsShown root t → IsShown root (set_dimensions w h t)
    unfolding set_dimensions
    set_dimensions-IsShown w h t k = record {
      same_root = k.same_root;
      rows_shown = k.rows_shown;
      cursor_shown = k.cursor_shown;
      matches_shown = k.matches_shown;
    }

    stepped_up :
        (t : TuiTree fl.F) (c : ℕ)
        → (c < length t.rows) ⊎ (c ≡ 0)
        → IsShown root t
        → IsShown root (elim c as (λ _. TuiTree fl.F) [
          | zero ↦ t
          | suc c' ↦ record t {
            cursor = c';
            scroll_offset = if ltb c' t.scroll_offset then c' else t.scroll_offset;
          }
        ])
    stepped_up t zero k h = h
    stepped_up t (suc c) k h = at_cursor t c _ (ground arith) h

    pub move_up-IsShown : (t : TuiTree fl.F) → IsShown root t → IsShown root (move_up t)
    unfolding move_up
    move_up-IsShown t h = stepped_up t t.cursor h.cursor_shown h

    pub move_down-IsShown : (t : TuiTree fl.F) → IsShown root t → IsShown root (move_down t)
    unfolding move_down
    move_down-IsShown t h = elim (Bool-cases (ltb (t.cursor + 1) (length t.rows))) [
      | inl e ↦ rw e (at_cursor t (t.cursor + 1) _ (inl (lt_of_ltb _ _ e)) h)
      | inr e ↦ rw e h
    ]

    pub move_bottom-IsShown : (t : TuiTree fl.F) → IsShown root t → IsShown root (move_bottom t)
    unfolding move_bottom
    move_bottom-IsShown t h =
        if-holds {A = TuiTree fl.F} (IsShown root) (length t.rows == 0) h
          (at_cursor t (length t.rows - 1) _ (ground arith) h)
