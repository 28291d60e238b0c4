-- ===== src/Diff/SelfFields.antt =====
-- diffStructsWithOptionsFallback on a struct and itself.
use stellar_xdr_lens.Prelude.{
  ◌≡◌, ◌∷◌, [], true, false, some, refl, List, Text, text_eq, All, text_eq_refl, or_true,
}
use stellar_xdr_lens.Tree.Value.{GoLib, Node, name, children}
use stellar_xdr_lens.Diff.Change.{DiffOptions, join}
use stellar_xdr_lens.Diff.Children.{
  diff_fields, diff_left_fields, diff_right_fields, names_include, Child,
}
use stellar_xdr_lens.Tree.Query.{find_child, child}
use stellar_xdr_lens.Diff.SelfEqual.{Selves}

module _ (go : GoLib) (o : DiffOptions go.F) where
  -- No two children have one name.
  abbrev pub DistinctNames : List (Node go.F) → Type 0
  DistinctNames [] = Unit
  DistinctNames (c ∷ cs) = All (λ d. text_eq (name c) (name d) ≡ false) cs × DistinctNames cs

  abbrev pub FindsItself : List (Node go.F) → Node go.F → Type 0
  FindsItself cs c = find_child (name c) cs ≡ some c

  finds_later :
      (c : Node go.F) (cs ds : List (Node go.F))
      → All (λ d. text_eq (name c) (name d) ≡ false) ds
      → All (FindsItself cs) ds
      → All (FindsItself (c ∷ cs)) ds
  unfolding find_child
  finds_later c cs [] apart h = h
  finds_later c cs (d ∷ ds) (differ, apart) (found, h) =
      (rw (differ, found), finds_later c cs ds apart h)

  names_found : (cs : List (Node go.F)) → DistinctNames cs → All (FindsItself cs) cs
  unfolding find_child
  names_found [] h = h
  names_found (c ∷ cs) (apart, h) =
      (rw (text_eq_refl (name c)), finds_later c cs cs apart (names_found cs h))

  diff_left_fields_self :
      (b : Node go.F) (path : Text) (ks : List (Child go o)) (bs : List (Node go.F))
      → Selves go o ks bs
      → All (FindsItself (children b)) bs
      → diff_left_fields go o b path ks ≡ []
  unfolding diff_left_fields child
  diff_left_fields_self b path [] bs h found = refl
  diff_left_fields_self b path (k ∷ ks) [] h found = absurd h
  diff_left_fields_self b path (k ∷ ks) (c ∷ bs) (equal, is_c, rest) (here, found) =
      rw (is_c, here, equal (join path (name c)), diff_left_fields_self b path ks bs rest found)

  names_include-later :
      (k : Child go o) (ks : List (Child go o)) (bs : List (Node go.F))
      → All (λ b. names_include go o ks (name b) ≡ true) bs
      → All (λ b. names_include go o (k ∷ ks) (name b) ≡ true) bs
  unfolding names_include
  names_include-later k ks [] h = h
  names_include-later k ks (b ∷ bs) (here, h) =
      (rw (here, or_true (text_eq (name k.child_node) (name b))), names_include-later k ks bs h)

  names_include_self :
      (ks : List (Child go o)) (bs : List (Node go.F))
      → Selves go o ks bs
      → All (λ b. names_include go o ks (name b) ≡ true) bs
  unfolding names_include
  names_include_self [] [] h = h
  names_include_self [] (b ∷ bs) h = absurd h
  names_include_self (k ∷ ks) [] h = absurd h
  names_include_self (k ∷ ks) (b ∷ bs) (equal, is_b, rest) = (
    rw (is_b, text_eq_refl (name b)),
    names_include-later k ks bs (names_include_self ks bs rest),
  )

  diff_right_fields_self :
      (ks : List (Child go o)) (path : Text) (bs : List (Node go.F))
      → All (λ b. names_include go o ks (name b) ≡ true) bs
      → diff_right_fields go o ks path bs ≡ []
  unfolding diff_right_fields
  diff_right_fields_self ks path [] h = refl
  diff_right_fields_self ks path (b ∷ bs) (here, h) = rw (here, diff_right_fields_self ks path bs h)

  pub diff_fields_self :
      (ks : List (Child go o)) (b : Node go.F) (path : Text)
      → Selves go o ks (children b)
      → DistinctNames (children b)
      → diff_fields go o ks b path ≡ []
  unfolding diff_fields
  diff_fields_self ks b path h distinct = rw (
    diff_left_fields_self b path ks (children b) h (names_found (children b) distinct),
    diff_right_fields_self ks path (children b) (names_include_self ks (children b) h),
  )
