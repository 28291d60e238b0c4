-- ===== src/Footprint/Sets.antt =====
-- The difference of two lists of keys against sets of identities.
use stellar_xdr_lens.Prelude.{
  ◌∷◌, [], ◌≡◌, ◌↔◌, ◌==◌, if◌then◌else◌, true, false, refl, List, one_of, Text, length, Bool,
  Bool-cases, arith, or_true, text_eq_refl, inl, sym, text_eq, inr, text_eq_iff, ap, ◌∙◌, and_true,
}
use stellar_xdr_lens.Footprint.{
  key_sets_equal, left_keys, right_keys, key_set_diff, FootprintKey, ids,
}

-- Every text of the one list is in the other.
abbrev Within : List Text → List Text → Type 0
Within xs ys = (b : Text) → one_of b xs ≡ true → one_of b ys ≡ true

Within-cons :
    (x : Text) (xs ys : List Text) → one_of x ys ≡ true → Within xs ys → Within (x ∷ xs) ys
unfolding one_of
Within-cons x xs ys h k b found = elim (Bool-cases (text_eq b x)) [
  | inl e ↦ rw ((text_eq_iff b x).0 e) h
  | inr e ↦ k b (rw e at found)
]

Within-tail : (x : Text) (xs ys : List Text) → Within (x ∷ xs) ys → Within xs ys
unfolding one_of
Within-tail x xs ys h b found = h b (rw found (or_true (text_eq b x)))

Within-head : (x : Text) (xs ys : List Text) → Within (x ∷ xs) ys → one_of x ys ≡ true
unfolding one_of
Within-head x xs ys h = h x (rw (text_eq_refl x) refl)

-- A label is reported for a key that is not on the other side.
reported_iff :
    (other : List Text) (k : FootprintKey) (ks : List FootprintKey) (rest : List Text)
    → ((rest ≡ []) ↔ Within (ids ks) other)
    → ((if one_of k.key other then rest else k.label ∷ rest) ≡ []) ↔ Within (k.key ∷ ids ks) other
reported_iff other k ks rest (p, q) = elim (Bool-cases (one_of k.key other)) [
  | inl e ↦ rw e (
    (λ h. Within-cons k.key (ids ks) other e (p h)),
    (λ h. q (Within-tail k.key (ids ks) other h)),
  )
  | inr e ↦ rw e ((λ h. cc h), (λ h. absurd (missing (Within-head k.key (ids ks) other h) e)))
]
  where
    missing : {b : Bool} → b ≡ true → b ≡ false → ⊥
    missing {b = true} h e = cc e
    missing {b = false} h e = cc h

added_none_iff :
    (left : List Text) (ks : List FootprintKey) → (right_keys left ks ≡ []) ↔ Within (ids ks) left
unfolding right_keys one_of
added_none_iff left [] = ((λ _ b h. cc h), (λ _. refl))
added_none_iff left (k ∷ ks) = reported_iff left k ks (right_keys left ks) (added_none_iff left ks)

removed-right_keys :
    (right : List Text) (ks : List FootprintKey) → (left_keys right ks).0 ≡ right_keys right ks
unfolding left_keys right_keys
removed-right_keys right [] = refl
removed-right_keys right (k ∷ ks) = elim (Bool-cases (one_of k.key right)) [
  | inl e ↦ rw e (removed-right_keys right ks)
  | inr e ↦ rw e (ap (λ l. k.label ∷ l) (removed-right_keys right ks))
]

-- Two sets of texts that are within each other answer alike.
same_answers :
    (xs ys : List Text) → (Within xs ys × Within ys xs) ↔ ((b : Text) → one_of b xs ≡ one_of b ys)
same_answers xs ys = (
  (λ h b. both (one_of b xs) (one_of b ys) (h.0 b) (h.1 b)),
  (λ h. ((λ b e. rw (h b) at e), (λ b e. rw (← h b) at e))),
)
  where
    both : (p q : Bool) → (p ≡ true → q ≡ true) → (q ≡ true → p ≡ true) → p ≡ q
    both true q f g = sym (f refl)
    both false true f g = g refl
    both false false f g = refl

empty_iff : {A : Type 0} (xs : List A) → ((length xs == 0) ≡ true) ↔ (xs ≡ [])
empty_iff [] = ((λ _. refl), (λ _. refl))
empty_iff (x ∷ xs) = ((λ h. ground (arith, h)), (λ h. cc h))

pub key_sets_equal_iff :
    (l r : List FootprintKey)
    → (key_sets_equal (key_set_diff l r) ≡ true)
      ↔ ((b : Text) → one_of b (ids l) ≡ one_of b (ids r))
unfolding key_sets_equal key_set_diff
key_sets_equal_iff l r =
    let (p, q) = added_none_iff (ids l) r in
    let (p', q') = added_none_iff (ids r) l in
    let (f, g) = same_answers (ids l) (ids r) in
    let removed = removed-right_keys (ids r) l in
    (
      (λ h.
          let (a, b) =
            and_true (length (right_keys (ids l) r) == 0) (length (left_keys (ids r) l).0 == 0) h in
          f (p' (sym removed ∙ (empty_iff _).0 b), p ((empty_iff _).0 a))),
      (λ h. let (lr, rl) = g h in rw (removed, q rl, q' lr) refl),
    )
