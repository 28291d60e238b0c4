-- ===== src/Redact/Diffed.antt =====
-- The end of DiffWithOptions of pkg/lens/diff.go, and what it shows of redacted values.
use stellar_xdr_lens.Prelude.{
  ◌≡◌, ◌∙◌, [], false, refl, Text, Option, Bool, text_eq, List, All, Option-cases, ap, sym, inl,
  inr, if◌then◌else◌, true, ◌++◌, if-cases,
}
use stellar_xdr_lens.Tree.Value.{
  GoLib, Node, Nodes, name, node, to_list, more, empty, scalar, list, struct,
}
use stellar_xdr_lens.Redact.Policy.{RedactionPolicy, placeholder_for, enabled}
use stellar_xdr_lens.Diff.Change.{DiffOptions, join, Change}
use stellar_xdr_lens.Redact.Tree.{redact_node, redact_nodes, redacted_copy, merged_paths}
use stellar_xdr_lens.Redact.Laws.{Agree, redact_node-Agree_iff}
use stellar_xdr_lens.Diff.Equal.{WellNamed, diff_trees_self, AllWellNamed}
use stellar_xdr_lens.Diff.SelfFields.{DistinctNames}
use stellar_xdr_lens.Diff.Walk.{diff_trees}
use stellar_xdr_lens.Diff.Quorum.{analyze_account_quorum, RawValue, extract_account_entry}
use stellar_xdr_lens.Filter.Changes.{filter_changes, PathFilter, selected_changes, filter_empty}
use stellar_xdr_lens.Diff.Power.{PowerChanges, total_weight, quorum_of-PowerChanges}

-- DiffResult, but the two type names.
pub record DiffResult (F : Type 0) : Type 0 where
  pub changes : List (Change F)
  pub redacted : List Text
  pub result_warnings : List Text

module _ (glob : Text → Text → Option Bool) (go : GoLib) (p : RedactionPolicy)
    (o : DiffOptions go.F) where
  name-redact_node :
      (a : Node go.F) (x : Text) (ps : List Text) → name (redact_node glob p x a ps).0 ≡ name a
  unfolding redact_node redacted_copy
  name-redact_node (node m k t v n cs) x ps = elim (Option-cases (placeholder_for glob p m t k)) [
    | inl e ↦ rw e refl
    | inr (s, e) ↦ rw e refl
  ]

  abbrev Apart : Text → Node go.F → Type 0
  Apart m d = text_eq m (name d) ≡ false

  redact_nodes-Apart :
      (m : Text) (cs : Nodes go.F) (x : Text) (ps : List Text)
      → All (Apart m) (to_list cs)
      → All (Apart m) (to_list (redact_nodes glob p x cs ps).0)
  unfolding redact_nodes
  redact_nodes-Apart m empty x ps h = h
  redact_nodes-Apart m (more c cs) x ps (h, hs) =
      (rw (name-redact_node c x ps) h, redact_nodes-Apart m cs x _ hs)

  redact_nodes-DistinctNames :
      (cs : Nodes go.F) (x : Text) (ps : List Text)
      → DistinctNames go o (to_list cs)
      → DistinctNames go o (to_list (redact_nodes glob p x cs ps).0)
  unfolding redact_nodes
  redact_nodes-DistinctNames empty x ps h = h
  redact_nodes-DistinctNames (more c cs) x ps (h, hs) = (
    rw (name-redact_node c x ps) (redact_nodes-Apart (name c) cs x _ h),
    redact_nodes-DistinctNames cs x _ hs,
  )

  mutual
    unfolding redact_node redacted_copy

    redact_node-WellNamed :
        (a : Node go.F) (x : Text) (ps : List Text)
        → WellNamed go o a
        → WellNamed go o (redact_node glob p x a ps).0
    redact_node-WellNamed (node m scalar t v n cs) x ps h =
        elim (Option-cases (placeholder_for glob p m t scalar)) [
          | inl e ↦ rw e (redact_nodes-AllWellNamed cs (join x m) ps h)
          | inr (s, e) ↦ rw e tt
        ]
    redact_node-WellNamed (node m list t v n cs) x ps h =
        elim (Option-cases (placeholder_for glob p m t list)) [
          | inl e ↦ rw e (redact_nodes-AllWellNamed cs (join x m) ps h)
          | inr (s, e) ↦ rw e tt
        ]
    redact_node-WellNamed (node m struct t v n cs) x ps (d, h) =
        elim (Option-cases (placeholder_for glob p m t struct)) [
          | inl e ↦ rw e (
            redact_nodes-DistinctNames cs (join x m) ps d,
            redact_nodes-AllWellNamed cs (join x m) ps h,
          )
          | inr (s, e) ↦ rw e tt
        ]

    redact_nodes-AllWellNamed :
        (cs : Nodes go.F) (x : Text) (ps : List Text)
        → AllWellNamed go o cs
        → AllWellNamed go o (redact_nodes glob p x cs ps).0
    redact_nodes-AllWellNamed empty x ps h = h
    redact_nodes-AllWellNamed (more c cs) x ps (h, hs) =
        (redact_node-WellNamed c x ps h, redact_nodes-AllWellNamed cs x _ hs)

  -- The end of DiffWithOptions, from the redaction on, for the nodes and the raw values of both sides:
  -- the redaction, the walk, the filter, and the quorum analysis.
  unfoldable pub diff_with_options :
      PathFilter → Node go.F → RawValue → Node go.F → RawValue → DiffResult go.F
  unfolding enabled redact_node merged_paths filter_changes analyze_account_quorum
  diff_with_options f a raw_a b raw_b =
      let left = redact_node glob p [] a [] in
      let right = redact_node glob p [] b [] in
      let left_node = if enabled p then left.0 else a in
      let right_node = if enabled p then right.0 else b in
      let quorum = analyze_account_quorum go raw_a raw_b left_node right_node in
      record {
        changes = filter_changes glob f (diff_trees go o left_node right_node) ++ quorum.0;
        redacted = if enabled p then merged_paths left.1 right.1 else [];
        result_warnings = quorum.1;
      }

  filter_none : (f : PathFilter) → filter_changes glob {F = go.F} f [] ≡ []
  unfolding filter_changes selected_changes
  filter_none f =
      if-cases {A = List (Change go.F)} (λ l. l ≡ []) (filter_empty f) (λ e. refl) (λ e. refl)

  -- With a policy that is enabled, the diff of two values whose trees differ in redacted values only shows
  -- nothing of the trees, if no struct in the first has two fields of one name. What is left is the
  -- change of the quorum analysis, which also reads the raw values: none if the total signing weights
  -- of the two accounts are equal modulo 2^32, counting 0 for a value that is no account, and else one
  -- change that shows both. So it is whatever the filter is.
  pub diff_with_options-PowerChanges :
      {a b : Node go.F} (f : PathFilter) (raw_a raw_b : RawValue)
      → enabled p ≡ true
      → Agree glob p a b
      → WellNamed go o a
      → PowerChanges
          (total_weight (extract_account_entry go raw_a (redact_node glob p [] a []).0))
          (total_weight (extract_account_entry go raw_b (redact_node glob p [] b []).0))
          (diff_with_options f a raw_a b raw_b).changes
  unfolding diff_with_options analyze_account_quorum
  diff_with_options-PowerChanges {a = a} {b = b} f raw_a raw_b on h named =
      let same : diff_trees go o (redact_node glob p [] a []).0 (redact_node glob p [] b []).0
          ≡ [] =
        ap (λ c. diff_trees go o (redact_node glob p [] a []).0 c)
          (sym ((redact_node-Agree_iff glob p a b [] []).1 h))
        ∙ diff_trees_self go o _ (redact_node-WellNamed a [] [] named) in
      rw (on, same, filter_none f)
        (quorum_of-PowerChanges (extract_account_entry go raw_a (redact_node glob p [] a []).0)
          (extract_account_entry go raw_b (redact_node glob p [] b []).0))
