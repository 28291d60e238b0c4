-- ===== src/Diff/Multiset.antt =====
-- signerSetDiff against multisets: how often a key occurs in a list of items.
use stellar_xdr_lens.Prelude.{
  ◌+◌, ◌-◌, ◌≤◌, ◌≡◌, ◌∷◌, if◌then◌else◌, [], refl, List, Text, text_eq_refl, ℕ, Bool-cases, arith,
  text_eq, ltb, inl, inr, le_of_not_ltb, ◌<◌, suc, sym, text_eq_iff, ◌↔◌, true, lt_of_ltb, ◌&&◌,
  ◌==◌, length,
}
use stellar_xdr_lens.Diff.Signers.{
  count_items, decrement, increment, split_left, split_right, Counts, MultisetItem, set_diff_equal,
  signer_set_diff, no_counts,
}
use mathlib.Core.Path.{subst}

unfoldable pub hit : Text → Text → ℕ
hit key k = if text_eq key k then 1 else 0

unfoldable pub occurs : Text → List MultisetItem → ℕ
occurs key [] = 0
occurs key (it ∷ items) = hit key it.key + occurs key items

unfoldable pub SameMultiset : List MultisetItem → List MultisetItem → Type 0
SameMultiset left right = (key : Text) → occurs key left ≡ occurs key right

hit_self : (k : Text) → hit k k ≡ 1
unfolding hit
hit_self k = rw (text_eq_refl k)

increment-hit : (m : Counts) (k key : Text) → increment m k key ≡ m key + hit key k
unfolding increment hit
increment-hit m k key = ground (arith, Bool-cases (text_eq key k))

decrement-hit : (m : Counts) (k key : Text) → decrement m k key ≡ m key - hit key k
unfolding decrement hit
decrement-hit m k key = ground (arith, Bool-cases (text_eq key k))

count_items-occurs :
    (m : Counts) (items : List MultisetItem) (key : Text)
    → count_items m items key ≡ m key + occurs key items
unfolding count_items occurs
count_items-occurs m [] key = omega arith
count_items-occurs m (it ∷ items) key =
    omega (arith, count_items-occurs (increment m it.key) items key, increment-hit m it.key key)

removed-none :
    (remaining : Counts) (items : List MultisetItem)
    → ((key : Text) → occurs key items ≤ remaining key)
    → (split_left remaining items).1 ≡ []
unfolding split_left occurs
removed-none remaining [] h = refl
removed-none remaining (it ∷ items) h = elim (Bool-cases (ltb 0 (remaining it.key))) [
  | inl e ↦ rw e (
      removed-none (decrement remaining it.key) items
        (λ key. omega (arith, h key, decrement-hit remaining it.key key)))
  | inr e ↦ absurd (omega (arith, h it.key, hit_self it.key, le_of_not_ltb 0 (remaining it.key) e))
]

-- A key that is counted at k is counted wherever it equals k.
hit_bound : (m : Counts) (k key : Text) → 0 < m k → hit key k ≤ m key
unfolding hit
hit_bound m k key h = elim (Bool-cases (text_eq key k)) [
  | inl e ↦ rw e (subst (λ u. suc 0 ≤ m u) (sym ((text_eq_iff key k).0 e)) (omega arith))
  | inr e ↦ rw e (omega arith)
]

removed-none_only :
    (remaining : Counts) (items : List MultisetItem)
    → (split_left remaining items).1 ≡ []
    → (key : Text) → occurs key items ≤ remaining key
unfolding split_left occurs
removed-none_only remaining [] h key = omega arith
removed-none_only remaining (it ∷ items) h key = elim (Bool-cases (ltb 0 (remaining it.key))) [
  | inl e ↦
      (let ih : occurs key items ≤ decrement remaining it.key key =
          removed-none_only (decrement remaining it.key) items (rw e at h) key in
        omega (
          arith,
          ih,
          decrement-hit remaining it.key key,
          hit_bound remaining it.key key (lt_of_ltb 0 (remaining it.key) e),
        ))
  | inr e ↦ absurd (let h2 : (it.label ∷ (split_left remaining items).1) ≡ [] = rw e at h in cc)
]

added-none_only :
    (counts consumed : Counts) (items : List MultisetItem)
    → ((key : Text) → consumed key ≤ counts key)
    → split_right counts consumed items ≡ []
    → (key : Text) → consumed key + occurs key items ≤ counts key
unfolding split_right occurs
added-none_only counts consumed [] small h key = omega (arith, small key)
added-none_only counts consumed (it ∷ items) small h key =
    elim (Bool-cases (ltb (consumed it.key) (counts it.key))) [
      | inl e ↦
          (let ih : increment consumed it.key key + occurs key items ≤ counts key =
              added-none_only counts (increment consumed it.key) items
                (λ u. omega (
                  arith,
                  small u,
                  increment-hit consumed it.key u,
                  hit_bound (λ w. counts w - consumed w) it.key u
                      (omega (arith, lt_of_ltb (consumed it.key) (counts it.key) e)),
                ))
                (rw e at h) key in
            omega (arith, ih, increment-hit consumed it.key key))
      | inr e ↦
          absurd (let h2 : (it.label ∷ split_right counts consumed items) ≡ [] = rw e at h in cc)
    ]

added-none :
    (counts consumed : Counts) (items : List MultisetItem)
    → ((key : Text) → consumed key + occurs key items ≤ counts key)
    → split_right counts consumed items ≡ []
unfolding split_right occurs
added-none counts consumed [] h = refl
added-none counts consumed (it ∷ items) h =
    elim (Bool-cases (ltb (consumed it.key) (counts it.key))) [
      | inl e ↦ rw e (
          added-none counts (increment consumed it.key) items
            (λ key. omega (arith, h key, increment-hit consumed it.key key)))
      | inr e ↦ absurd (
          omega
            (arith, h it.key, hit_self it.key, le_of_not_ltb (consumed it.key) (counts it.key) e))
    ]

both_empty :
    (xs ys : List Text) → ((length xs == 0) && (length ys == 0)) ≡ true → (xs ≡ []) × (ys ≡ [])
both_empty [] [] h = (refl, refl)
both_empty [] (y ∷ ys) h = absurd (ground arith)
both_empty (x ∷ xs) ys h = absurd (ground arith)

nothing_changed :
    (left right : List MultisetItem)
    → SameMultiset left right
    → set_diff_equal (signer_set_diff left right) ≡ true
unfolding set_diff_equal signer_set_diff SameMultiset
nothing_changed left right same = rw (
  removed-none (count_items no_counts right) left
      (λ key. omega (arith, same key, count_items-occurs no_counts right key)),
  added-none (count_items no_counts left) no_counts right
      (λ key. omega (arith, same key, count_items-occurs no_counts left key)),
)

pub signer_set_diff_self :
    (items : List MultisetItem)
    → ((signer_set_diff items items).added_labels ≡ [])
      × ((signer_set_diff items items).removed_labels ≡ [])
unfolding set_diff_equal SameMultiset
signer_set_diff_self items = both_empty _ _ (nothing_changed items items (λ key. refl))

multiset_kept :
    (left right : List MultisetItem)
    → set_diff_equal (signer_set_diff left right) ≡ true
    → SameMultiset left right
unfolding set_diff_equal signer_set_diff SameMultiset
multiset_kept left right h key =
    let empties : (split_right (count_items no_counts left) no_counts right ≡ [])
        × ((split_left (count_items no_counts right) left).1 ≡ []) =
      both_empty _ _ h in
    omega (
      arith,
      count_items-occurs no_counts left key,
      count_items-occurs no_counts right key,
      removed-none_only (count_items no_counts right) left empties.1 key,
      added-none_only (count_items no_counts left) no_counts right (λ u. omega arith) empties.0 key,
    )

-- The lists of signers added and removed are both empty exactly if no key occurs more often on one
-- side: SignerSetDiff.Equal on the result of signerSetDiff is equality of the multisets of keys.
pub signer_set_diff-SameMultiset :
    (left right : List MultisetItem)
    → (set_diff_equal (signer_set_diff left right) ≡ true) ↔ SameMultiset left right
signer_set_diff-SameMultiset left right = (multiset_kept left right, nothing_changed left right)
