-- ===== src/Redact/Laws.antt =====
-- Redaction twice, of trees that agree, and the paths that it records.
use mathlib.Core.Path.{ap₂, subst}
use stellar_xdr_lens.Prelude.{
  ◌≡◌, none, some, refl, Text, Option, Bool, List, ap, Option-cases, inl, inr, if◌then◌else◌, true,
  false, not, sym, ◌∙◌, ◌↔◌,
}
use stellar_xdr_lens.Redact.Policy.{
  RedactionPolicy, placeholder_for, placeholder_of_scalar, enabled, matches_field, redacted_field,
}
use stellar_xdr_lens.Redact.Tree.{redact_node, redacted_copy, redact_nodes}
use stellar_xdr_lens.Tree.Value.{Node, Kind, Val, scalar, Nodes, node, struct, empty, list, more}
use stellar_xdr_lens.Diff.Change.{join}

field_only :
    (off by_field : Bool) (o : Option Text) (placeholder : Text) {s : Text}
    → (if off then none else if by_field then some placeholder else none) ≡ some s
    → (if off then none else if by_field then some placeholder else o) ≡ some s
field_only true by_field o placeholder e = e
field_only false true o placeholder e = e
field_only false false o placeholder e = cc e

some_is_no_none : {o : Option Text} {s : Text} → o ≡ some s → o ≡ none → ⊥
some_is_no_none e f = cc (e, f)

-- A placeholder has the name, the type name and the kind of a scalar, and is replaced again.
placeholder_again :
    (glob : Text → Text → Option Bool) (p : RedactionPolicy) (m t : Text) (k : Kind) {s : Text}
    → placeholder_for glob p m t k ≡ some s
    → placeholder_for glob p m t scalar ≡ some s
unfolding placeholder_for placeholder_of_scalar
placeholder_again glob p m t scalar e = e
placeholder_again glob p m t struct e =
    field_only (not (enabled p)) (matches_field glob p m) (placeholder_of_scalar p m t scalar)
      redacted_field e
placeholder_again glob p m t list e =
    field_only (not (enabled p)) (matches_field glob p m) (placeholder_of_scalar p m t scalar)
      redacted_field e

module _ (glob : Text → Text → Option Bool) {F : Type 0} (p : RedactionPolicy) where
  -- Two trees agree if they differ below placeholders only.
  mutual
    pub data Agree : Node F → Node F → Type 0 where
      both_redacted :
          {m t s : Text} {k l : Kind} {v w : Val F} {n o : Text} {cs ds : Nodes F}
          → placeholder_for glob p m t k ≡ some s
          → placeholder_for glob p m t l ≡ some s
          → Agree (node m k t v n cs) (node m l t w o ds)
      both_kept :
          {m t : Text} {k : Kind} {v : Val F} {n : Text} {cs ds : Nodes F}
          → placeholder_for glob p m t k ≡ none
          → AllAgree cs ds
          → Agree (node m k t v n cs) (node m k t v n ds)

    pub data AllAgree : Nodes F → Nodes F → Type 0 where
      no_nodes : AllAgree empty empty
      more_nodes :
          {c d : Node F} {cs ds : Nodes F}
          → Agree c d
          → AllAgree cs ds
          → AllAgree (more c cs) (more d ds)

  mutual
    unfolding redact_node redacted_copy

    -- Trees that agree have the same redaction.
    pub Agree-redact_node :
        {a b : Node F}
        → Agree a b
        → (x y : Text) (ps qs : List Text)
        → (redact_node glob p x a ps).0 ≡ (redact_node glob p y b qs).0
    Agree-redact_node (both_redacted e f) x y ps qs = rw (e, f)
    Agree-redact_node (both_kept {m = m} {t = t} {k = k} {v = v} {n = n} e h) x y ps qs =
        rw e (ap (λ cs. node m k t v n cs) (AllAgree-redact_nodes h (join x m) (join y m) ps qs))

    AllAgree-redact_nodes :
        {cs ds : Nodes F}
        → AllAgree cs ds
        → (x y : Text) (ps qs : List Text)
        → (redact_nodes glob p x cs ps).0 ≡ (redact_nodes glob p y ds qs).0
    AllAgree-redact_nodes no_nodes x y ps qs = refl
    AllAgree-redact_nodes (more_nodes h hs) x y ps qs =
        ap₂ more (Agree-redact_node h x y ps qs) (AllAgree-redact_nodes hs x y _ _)

  mutual
    unfolding redact_node redacted_copy

    -- A tree agrees with its redaction.
    pub redact_node-Agree :
        (a : Node F) (x : Text) (ps : List Text) → Agree a (redact_node glob p x a ps).0
    redact_node-Agree (node m k t v n cs) x ps =
        elim (Option-cases (placeholder_for glob p m t k)) [
          | inl e ↦ rw e (both_kept e (redact_nodes-AllAgree cs (join x m) ps))
          | inr (s, e) ↦ rw e (both_redacted e (placeholder_again glob p m t k e))
        ]

    redact_nodes-AllAgree :
        (cs : Nodes F) (x : Text) (ps : List Text) → AllAgree cs (redact_nodes glob p x cs ps).0
    redact_nodes-AllAgree empty x ps = no_nodes
    redact_nodes-AllAgree (more c cs) x ps =
        more_nodes (redact_node-Agree c x ps) (redact_nodes-AllAgree cs x _)

  mutual
    -- Two trees that agree with a third agree with each other.
    Agree-join : {a b c : Node F} → Agree a c → Agree b c → Agree a b
    Agree-join (both_redacted e f) (both_redacted e' f') = both_redacted e (e' ∙ (sym f' ∙ f))
    Agree-join (both_redacted e f) (both_kept e' h) = absurd (some_is_no_none f e')
    Agree-join (both_kept e h) (both_redacted e' f') = absurd (some_is_no_none f' e)
    Agree-join (both_kept e h) (both_kept e' h') = both_kept e (AllAgree-join h h')

    AllAgree-join : {as' bs cs : Nodes F} → AllAgree as' cs → AllAgree bs cs → AllAgree as' bs
    AllAgree-join no_nodes no_nodes = no_nodes
    AllAgree-join (more_nodes h hs) (more_nodes k ks) =
        more_nodes (Agree-join h k) (AllAgree-join hs ks)

  -- Two trees have the same redaction exactly if they agree.
  pub redact_node-Agree_iff :
      (a b : Node F) (x : Text) (ps : List Text)
      → ((redact_node glob p x a ps).0 ≡ (redact_node glob p x b ps).0) ↔ Agree a b
  redact_node-Agree_iff a b x ps = (
    (λ e.
        Agree-join (redact_node-Agree a x ps)
          (subst (λ c. Agree b c) (sym e) (redact_node-Agree b x ps))),
    (λ h. Agree-redact_node h x x ps ps),
  )

  -- Redaction twice is redaction once.
  pub redact_node_idem :
      (a : Node F) (x y : Text) (ps qs : List Text)
      → (redact_node glob p y (redact_node glob p x a ps).0 qs).0 ≡ (redact_node glob p x a ps).0
  redact_node_idem a x y ps qs = sym (Agree-redact_node (redact_node-Agree a x ps) x y ps qs)
