-- ===== src/Diff/Greedy.antt =====
-- Greedy pairing: each left item, in order, takes the first right item that is left and matches it.
-- The second pass of diffOperationLists and both passes of diffEventLists pair this way. Their flags
-- matchedLeft and matchedRight are here the lists of the items that are not matched yet.
use stellar_xdr_lens.Prelude.{
  ◌∷◌, if◌then◌else◌, suc, [], none, some, Bool, List, Option, ℕ, ◌≡◌, true,
}

-- The pairs, and what is not matched on either side.
pub record Paired {ℓ κ} (A : Type ℓ) (B : Type κ) : Type (ℓ ⊔ κ) where
  pub pairs : List (A × B)
  pub lefts : List A
  pub rights : List B

unfoldable pub later_match {κ} : {B : Type κ} → B → Option (B × List B) → Option (B × List B)
later_match y none = none
later_match y (some (z, rest)) = some (z, y ∷ rest)

module _ {ℓ κ} {A : Type ℓ} {B : Type κ} (match : A → B → Bool) where
  -- The first match, and the other right items.
  unfoldable pub take_match : A → List B → Option (B × List B)
  take_match x [] = none
  take_match x (y ∷ ys) =
      let later = later_match y (take_match x ys) in if match x y then some (y, ys) else later

  unfoldable pub pair_found : (List B → Paired A B) → A → List B → Option (B × List B) → Paired A B
  pair_found go_on x ys none =
      let rest = go_on ys in
      record { pairs = rest.pairs; lefts = x ∷ rest.lefts; rights = rest.rights }
  pair_found go_on x ys (some (y, others)) =
      let rest = go_on others in
      record { pairs = (x, y) ∷ rest.pairs; lefts = rest.lefts; rights = rest.rights }

  unfoldable pub pair_up : List A → List B → Paired A B
  pair_up [] ys = record { pairs = []; lefts = []; rights = ys }
  pair_up (x ∷ xs) ys = pair_found (λ zs. pair_up xs zs) x ys (take_match x ys)

  take_match-head :
      (x : A) (y : B) (ys : List B) → match x y ≡ true → take_match x (y ∷ ys) ≡ some (y, ys)
  unfolding take_match
  take_match-head x y ys e = rw e

  -- Where two heads match they are paired.
  pub pair_up-head :
      (x : A) (xs : List A) (y : B) (ys : List B) (rest : Paired A B)
      → match x y ≡ true
      → pair_up xs ys ≡ rest
      → pair_up (x ∷ xs) (y ∷ ys)
        ≡ record { pairs = (x, y) ∷ rest.pairs; lefts = rest.lefts; rights = rest.rights }
  unfolding pair_up pair_found
  pair_up-head x xs y ys rest e paired = rw (take_match-head x y ys e, paired)

-- The indices of a list.

unfoldable pub indexed_from {ℓ} : {A : Type ℓ} → ℕ → List A → List (ℕ × A)
indexed_from i [] = []
indexed_from i (x ∷ xs) = (i, x) ∷ indexed_from (suc i) xs
