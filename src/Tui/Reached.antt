-- ===== src/Tui/Reached.antt =====
-- Every operation keeps the view of the explorer, and so does every event.
use stellar_xdr_lens.Prelude.{
  ◌∷◌, [], ◌<◌, ◌≡◌, ◌&&◌, ◌==◌, false, none, some, refl, Text, Option, ℕ, if-holds, length, arith,
  not, inl, codes, get_elem?, inr, one_of,
}
use stellar_xdr_lens.Tui.Shown.{
  opens, goes_on, presses, resizes, IsShown, Opened, TuiEvent, TuiStep, new_tui_tree-IsShown,
  with_status, at_cursor, rebuild_rows-IsShown, set_dimensions-IsShown, row_at-lt, move_up-IsShown,
  move_down-IsShown, move_bottom-IsShown, with_quit, IsShown-none,
}
use stellar_xdr_lens.Tree.Value.{GoLib, Node}
use stellar_xdr_lens.Tui.Keys.{clear_filter, filter_key, handle_key, press, slash_filter}
use stellar_xdr_lens.Tui.State.{
  TuiTree, collapse, collapse_all, expand_all, select, select_above, set_filter, to_parent, toggle,
  toggle_selected, collapse_selected, row_at, move_top, collapsed, mark_whole, rebuild_rows,
}
use stellar_xdr_lens.Tui.Rows.{Address, TreeRow, put}

module _ (fl : GoLib) (to_lower : Text → Text) where
  module _ {root : Option (Node fl.F)} where
    select-IsShown :
        (t : TuiTree fl.F) (o : Option ℕ)
        → ((i : ℕ) → o ≡ some i → i < length t.rows)
        → IsShown fl to_lower root t
        → IsShown fl to_lower root (select o t)
    unfolding select
    select-IsShown t none k h = h
    select-IsShown t (some i) k h = at_cursor fl to_lower t i t.scroll_offset (inl (k i refl)) h

    select_above-IsShown :
        (t : TuiTree fl.F) (o : Option ℕ)
        → ((i : ℕ) → o ≡ some i → i < length t.rows)
        → IsShown fl to_lower root t
        → IsShown fl to_lower root (select_above o t)
    unfolding select_above
    select_above-IsShown t none k h = h
    select_above-IsShown t (some i) k h = at_cursor fl to_lower t i _ (inl (k i refl)) h

    to_parent-IsShown :
        (o : Option Address) (t : TuiTree fl.F)
        → IsShown fl to_lower root t
        → IsShown fl to_lower root (to_parent o t)
    unfolding to_parent
    to_parent-IsShown none t h = h
    to_parent-IsShown (some a) t h =
        select_above-IsShown t (row_at a t.rows 0) (λ i e. omega (arith, row_at-lt a t.rows 0 i e))
          h

    toggle-IsShown :
        (o : Option (TreeRow fl.F)) (t : TuiTree fl.F)
        → IsShown fl to_lower root t
        → IsShown fl to_lower root (toggle fl to_lower o t)
    unfolding toggle
    toggle-IsShown none t h = h
    toggle-IsShown (some r) t h =
        let marks = put r.address (not (t.expanded_state r.address)) t.expanded_state in
        let t' = rebuild_rows fl to_lower (record t { expanded_state = marks }) in
        if-holds {A = TuiTree fl.F} (IsShown fl to_lower root) r.has_children
          (select-IsShown t' (row_at r.address t'.rows 0)
            (λ i e. omega (arith, row_at-lt r.address t'.rows 0 i e))
            (rebuild_rows-IsShown fl to_lower root (record t { expanded_state = marks }) h.same_root
              (IsShown-none fl to_lower t h)))
          h

    collapse-IsShown :
        (o : Option (TreeRow fl.F)) (t : TuiTree fl.F)
        → IsShown fl to_lower root t
        → IsShown fl to_lower root (collapse fl to_lower o t)
    unfolding collapse
    collapse-IsShown none t h = h
    collapse-IsShown (some r) t h =
        if-holds {A = TuiTree fl.F} (IsShown fl to_lower root)
          (r.has_children && t.expanded_state r.address)
          (rebuild_rows-IsShown fl to_lower root
            (record t { expanded_state = put r.address false t.expanded_state }) h.same_root
            (IsShown-none fl to_lower t h))
          (to_parent-IsShown r.parent t h)

    expand_all-IsShown :
        (t : TuiTree fl.F)
        → IsShown fl to_lower root t
        → IsShown fl to_lower root (expand_all fl to_lower t)
    unfolding expand_all
    expand_all-IsShown t h = with_status fl to_lower _ _ (
        rebuild_rows-IsShown fl to_lower root
          (record t { expanded_state = mark_whole t.root t.expanded_state }) h.same_root
          (IsShown-none fl to_lower t h))

    collapse_all-IsShown :
        (t : TuiTree fl.F)
        → IsShown fl to_lower root t
        → IsShown fl to_lower root (collapse_all fl to_lower t)
    unfolding collapse_all
    collapse_all-IsShown t h = with_status fl to_lower _ _ (
        rebuild_rows-IsShown fl to_lower root
          (record t { expanded_state = collapsed t.root; cursor = 0; scroll_offset = 0 })
          h.same_root (λ _. refl))

    set_filter-IsShown :
        (q : Text) (t : TuiTree fl.F)
        → IsShown fl to_lower root t
        → IsShown fl to_lower root (set_filter fl to_lower q t)
    unfolding set_filter
    set_filter-IsShown q t h = with_status fl to_lower _ _ (
        rebuild_rows-IsShown fl to_lower root
          (record t { filter = q; cursor = 0; scroll_offset = 0 }) h.same_root (λ _. refl))

    filter_key-IsShown :
        (o : Option Text) (t : TuiTree fl.F)
        → IsShown fl to_lower root t
        → IsShown fl to_lower root (filter_key fl to_lower o t)
    unfolding filter_key
    filter_key-IsShown none t h = h
    filter_key-IsShown (some q) t h = set_filter-IsShown q t h

    clear_filter-IsShown :
        (t : TuiTree fl.F)
        → IsShown fl to_lower root t
        → IsShown fl to_lower root (clear_filter fl to_lower t)
    unfolding clear_filter
    clear_filter-IsShown t h =
        if-holds {A = TuiTree fl.F} (IsShown fl to_lower root) (length t.filter == 0) h
          (set_filter-IsShown [] t h)

    press-IsShown :
        (key : Text) (t : TuiTree fl.F)
        → IsShown fl to_lower root t
        → IsShown fl to_lower root (press fl to_lower key t)
    unfolding press toggle_selected collapse_selected move_top
    press-IsShown key t h =
        let is = one_of key in
        if-holds {A = TuiTree fl.F} (IsShown fl to_lower root) (is (codes "up" ∷ codes "k" ∷ []))
          (move_up-IsShown fl to_lower t h)
          (if-holds {A = TuiTree fl.F} (IsShown fl to_lower root)
            (is (codes "down" ∷ codes "j" ∷ [])) (move_down-IsShown fl to_lower t h)
            (if-holds {A = TuiTree fl.F} (IsShown fl to_lower root)
              (is (codes "right" ∷ codes "l" ∷ codes "enter" ∷ codes "space" ∷ []))
              (toggle-IsShown (get_elem? t.rows t.cursor) t h)
              (if-holds {A = TuiTree fl.F} (IsShown fl to_lower root)
                (is (codes "left" ∷ codes "h" ∷ []))
                (collapse-IsShown (get_elem? t.rows t.cursor) t h)
                (if-holds {A = TuiTree fl.F} (IsShown fl to_lower root) (is (codes "e" ∷ []))
                  (expand_all-IsShown t h)
                  (if-holds {A = TuiTree fl.F} (IsShown fl to_lower root) (is (codes "c" ∷ []))
                    (collapse_all-IsShown t h)
                    (if-holds {A = TuiTree fl.F} (IsShown fl to_lower root)
                      (is (codes "g" ∷ codes "home" ∷ []))
                      (at_cursor fl to_lower t 0 0 (inr refl) h)
                      (if-holds {A = TuiTree fl.F} (IsShown fl to_lower root)
                        (is (codes "G" ∷ codes "end" ∷ [])) (move_bottom-IsShown fl to_lower t h)
                        (if-holds {A = TuiTree fl.F} (IsShown fl to_lower root)
                          (is (codes "q" ∷ codes "ctrl+c" ∷ [])) (with_quit fl to_lower t h)
                          (if-holds {A = TuiTree fl.F} (IsShown fl to_lower root)
                            (is (codes "esc" ∷ [])) (clear_filter-IsShown t h)
                            (filter_key-IsShown (slash_filter key) t h))))))))))

    TuiStep-IsShown :
        {t u : TuiTree fl.F} {e : TuiEvent}
        → TuiStep fl to_lower t e u
        → IsShown fl to_lower root t
        → IsShown fl to_lower root u
    unfolding handle_key
    TuiStep-IsShown {t = t} (presses key) h = press-IsShown key _ (with_status fl to_lower t [] h)
    TuiStep-IsShown {t = t} (resizes w k) h = set_dimensions-IsShown fl to_lower w k t h

    -- After any keys and changes of the terminal's size, the rows of the explorer are those of its tree,
    -- filter and expanded nodes, the cursor is on one of them or at 0, and with a filter the rows show
    -- exactly the nodes that match, in document order.
    pub Opened-IsShown : {t : TuiTree fl.F} → Opened fl to_lower root t → IsShown fl to_lower root t
    Opened-IsShown (opens type_name) = new_tui_tree-IsShown fl to_lower root type_name
    Opened-IsShown (goes_on r st) = TuiStep-IsShown st (Opened-IsShown r)
