-- ===== src/Diff/Pairing.antt =====
-- The greedy pairing of Diff/Greedy against the two lists that it pairs.
use stellar_xdr_lens.Prelude.{
  ◌+◌, ◌≡◌, ◌∷◌, ◌++◌, if◌then◌else◌, [], true, false, none, some, Bool, List, Bool-cases, Option,
  ℕ, All, inl, inr, refl, arith,
}
use stellar_xdr_lens.Diff.Greedy.{later_match, pair_found, pair_up, take_match, Paired}

-- How many items satisfy a test.
unfoldable pub count_of {ℓ} : {A : Type ℓ} → (A → Bool) → List A → ℕ
count_of p [] = 0
count_of p (x ∷ xs) = (if p x then 1 else 0) + count_of p xs

count_of-append {ℓ} :
    {A : Type ℓ} (p : A → Bool) (xs ys : List A)
    → count_of p (xs ++ ys) ≡ count_of p xs + count_of p ys
unfolding count_of
count_of-append p [] ys = omega arith
count_of-append p (x ∷ xs) ys = omega (arith, count_of-append p xs ys)

module _ {ℓ κ} {A : Type ℓ} {B : Type κ} (match : A → B → Bool) where
  -- The first match in a list, and the rest of it, and the items that the search passed.
  pub data Taken (x : A) : List B → Option (B × List B) → Type (ℓ ⊔ κ) where
    not_there : {ys : List B} → All (λ y. match x y ≡ false) ys → Taken x ys none
    there :
        (before : List B) (y : B) (after : List B)
        → All (λ z. match x z ≡ false) before
        → match x y ≡ true
        → Taken x (before ++ y ∷ after) (some (y, before ++ after))

  later-Taken :
      (x : A) (y : B) (ys : List B) (found : Option (B × List B))
      → match x y ≡ false
      → Taken x ys found
      → Taken x (y ∷ ys) (later_match y found)
  unfolding later_match
  later-Taken x y ys found e (not_there h) = not_there (e, h)
  later-Taken x y ys found e (there before z after h here) = there (y ∷ before) z after (e, h) here

  pub take_match-Taken : (x : A) (ys : List B) → Taken x ys (take_match match x ys)
  unfolding take_match
  take_match-Taken x [] = not_there tt
  take_match-Taken x (y ∷ ys) = elim (Bool-cases (match x y)) [
    | inl e ↦ rw e (there [] y ys tt e)
    | inr e ↦ rw e (later-Taken x y ys (take_match match x ys) e (take_match-Taken x ys))
  ]

  pub IsPairing : List A → List B → Paired A B → Type (ℓ ⊔ κ)
  IsPairing xs ys r =
      ((p : A → Bool) → count_of p xs ≡ count_of (λ q. p q.0) r.pairs + count_of p r.lefts)
      × ((p : B → Bool) → count_of p ys ≡ count_of (λ q. p q.1) r.pairs + count_of p r.rights)
      × All (λ q. match q.0 q.1 ≡ true) r.pairs

  pair_found-IsPairing :
      (go_on : List B → Paired A B) (x : A) (xs : List A) (ys : List B)
      (found : Option (B × List B))
      → ((zs : List B) → IsPairing xs zs (go_on zs))
      → Taken x ys found
      → IsPairing (x ∷ xs) ys (pair_found match go_on x ys found)
  unfolding pair_found IsPairing count_of
  pair_found-IsPairing go_on x xs ys found h (not_there apart) =
      let (on_left, on_right, good) = h ys in ((λ p. omega (arith, on_left p)), on_right, good)
  pair_found-IsPairing go_on x xs ys found h (there before y after apart e) =
      let (on_left, on_right, good) = h (before ++ after) in
      (
        (λ p. omega (arith, on_left p)),
        (λ p. omega (
          arith,
          on_right p,
          count_of-append p before (y ∷ after),
          count_of-append p before after,
        )),
        (e, good),
      )

  -- The second pass of diffOperationLists, and the passes of diffEventLists: each item of either
  -- list is in one pair or left over, as often as it occurs, and the items of each pair match.
  pub pair_up-IsPairing : (xs : List A) (ys : List B) → IsPairing xs ys (pair_up match xs ys)
  unfolding pair_up IsPairing count_of
  pair_up-IsPairing [] ys = ((λ p. refl), (λ p. omega arith), tt)
  pair_up-IsPairing (x ∷ xs) ys =
      pair_found-IsPairing (λ zs. pair_up match xs zs) x xs ys (take_match match x ys)
        (λ zs. pair_up-IsPairing xs zs) (take_match-Taken x ys)
