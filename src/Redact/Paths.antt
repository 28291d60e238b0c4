-- ===== src/Redact/Paths.antt =====
-- The paths that redactNode records.
use stellar_xdr_lens.Prelude.{
  ◌≡◌, ◌∙◌, ◌∷◌, ◌++◌, [], true, none, some, refl, List, Text, Bool-cases, Option, Bool, inl, inr,
  Option-cases, ap, sym, append-nil, append_assoc, text_eq, text_eq_iff, arith,
}
use stellar_xdr_lens.Redact.Tree.{
  append_path, append_paths, has_path, redact_node, redact_value, redacted_copy, redact_nodes,
}
use stellar_xdr_lens.Redact.Policy.{RedactionPolicy, enabled, placeholder_for}
use stellar_xdr_lens.Tree.Value.{Node, node, Nodes, more, empty}
use stellar_xdr_lens.Diff.Change.{join}
use mathlib.Core.Path.{subst}
use mathlib.Core.List.{Memᴰ}

-- The first occurrences among some paths of those that are not among others before them, in order.
pub data Firsts : List Text → List Text → List Text → Type 0 where
  no_more : {before : List Text} → Firsts before [] []
  known :
      {before ps qs : List Text} (p : Text)
      → Memᴰ p before
      → Firsts before ps qs
      → Firsts before (p ∷ ps) qs
  fresh :
      {before ps qs : List Text} (p : Text)
      → ¬ Memᴰ p before
      → Firsts (before ++ p ∷ []) ps qs
      → Firsts before (p ∷ ps) (p ∷ qs)

Memᴰ-of_has_path : (ps : List Text) (p : Text) → has_path ps p ≡ true → Memᴰ p ps
unfolding has_path
Memᴰ-of_has_path [] p h = cc h
Memᴰ-of_has_path (q ∷ qs) p h = elim (Bool-cases (text_eq q p)) [
  | inl e ↦ Memᴰ.head (sym ((text_eq_iff q p).0 e))
  | inr e ↦ Memᴰ.tail (Memᴰ-of_has_path qs p (rw e at h))
]

has_path-of_Memᴰ : (ps : List Text) (p : Text) → Memᴰ p ps → has_path ps p ≡ true
unfolding has_path
has_path-of_Memᴰ [] p m = elim m [ ]
has_path-of_Memᴰ (q ∷ qs) p (Memᴰ.head same) = rw ((text_eq_iff q p).1 (sym same)) refl
has_path-of_Memᴰ (q ∷ qs) p (Memᴰ.tail m) = ground (arith, has_path-of_Memᴰ qs p m)

-- What a list of paths is appended to another comes to.
append_paths-Firsts :
    (ps before : List Text)
    → (qs : List Text) × (append_paths before ps ≡ before ++ qs) × Firsts before ps qs
unfolding append_paths append_path
append_paths-Firsts [] before = ([], sym (append-nil before), no_more)
append_paths-Firsts (p ∷ ps) before = elim (Bool-cases (has_path before p)) [
  | inl e ↦
      let (qs, same, firsts) = append_paths-Firsts ps before in
      (qs, rw e same, known p (Memᴰ-of_has_path before p e) firsts)
  | inr e ↦
      let (qs, same, firsts) = append_paths-Firsts ps (before ++ p ∷ []) in
      (
        p ∷ qs,
        rw e (same ∙ append_assoc before (p ∷ []) qs),
        fresh p (λ m. cc (has_path-of_Memᴰ before p m, e)) firsts,
      )
]

append_paths-append :
    (ps qs rs : List Text) → append_paths ps (qs ++ rs) ≡ append_paths (append_paths ps qs) rs
unfolding append_paths
append_paths-append ps [] rs = refl
append_paths-append ps (q ∷ qs) rs = append_paths-append (append_path ps q) qs rs

unfoldable pub own_paths : Option Text → Text → List Text → List Text
own_paths (some s) current below = current ∷ []
own_paths none current below = below

module _ (glob : Text → Text → Option Bool) {F : Type 0} (p : RedactionPolicy) where
  -- The paths of the nodes that have placeholders, in document order; nothing below one counts.
  unfoldable mutual
    unfolding own_paths

    pub masked_paths : Text → Node F → List Text
    masked_paths prefix (node m k t v n cs) =
        own_paths (placeholder_for glob p m t k) (join prefix m)
          (all_masked_paths (join prefix m) cs)

    pub all_masked_paths : Text → Nodes F → List Text
    all_masked_paths prefix empty = []
    all_masked_paths prefix (more c cs) = masked_paths prefix c ++ all_masked_paths prefix cs

  mutual
    unfolding redact_node redacted_copy masked_paths own_paths append_paths

    redact_node-paths :
        (a : Node F) (x : Text) (ps : List Text)
        → (redact_node glob p x a ps).1 ≡ append_paths ps (masked_paths x a)
    redact_node-paths (node m k t v n cs) x ps =
        elim (Option-cases (placeholder_for glob p m t k)) [
          | inl e ↦ rw e (redact_nodes-paths cs (join x m) ps)
          | inr (s, e) ↦ rw e refl
        ]

    redact_nodes-paths :
        (cs : Nodes F) (x : Text) (ps : List Text)
        → (redact_nodes glob p x cs ps).1 ≡ append_paths ps (all_masked_paths x cs)
    redact_nodes-paths empty x ps = refl
    redact_nodes-paths (more c cs) x ps =
        redact_nodes-paths cs x _
        ∙ ap (λ qs. append_paths qs (all_masked_paths x cs)) (redact_node-paths c x ps)
        ∙ sym (append_paths-append ps (masked_paths x c) (all_masked_paths x cs))

  -- If the policy is enabled, the paths that RedactValue records are the first occurrences, in document
  -- order, of the paths of the nodes that have placeholders and stand below no other such node: each of
  -- them once, and no others.
  pub redact_value-paths :
      (a : Node F) → enabled p ≡ true → Firsts [] (masked_paths [] a) (redact_value glob p a).1
  unfolding redact_value
  redact_value-paths a on =
      let (qs, same, firsts) = append_paths-Firsts (masked_paths [] a) [] in
      rw on (
        subst (λ l. Firsts [] (masked_paths [] a) l) (sym (redact_node-paths a [] [] ∙ same))
          firsts)
