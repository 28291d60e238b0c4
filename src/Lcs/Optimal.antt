-- ===== src/Lcs/Optimal.antt =====
-- The table's cells are the lengths of the longest common subsequences of the suffixes.
use stellar_xdr_lens.Prelude.{
  ◌+◌, ◌≤◌, ◌≡◌, ◌∷◌, if◌then◌else◌, suc, [], true, Bool, List, ℕ, arith, false, refl, Bool-cases,
  inl, inr, ap,
}
use Prim.Native.Nat.{max}
use stellar_xdr_lens.Lcs.Table.{
  first_row, head_or, cell_below, cell_right, lcs_row, lcs_table, step_down, step_right, zero_row,
}

-- `n` pairs of equal elements, in order on both sides.
pub data Common {ℓ κ} {A : Type ℓ} {B : Type κ} (same : A → B → Bool)
    : List A → List B → ℕ → Type (ℓ ⊔ κ) where
  stop : {xs : List A} {ys : List B} → Common same xs ys 0
  skip_left :
      {x : A} {xs : List A} {ys : List B} {n : ℕ} → Common same xs ys n → Common same (x ∷ xs) ys n
  skip_right :
      {y : B} {xs : List A} {ys : List B} {n : ℕ} → Common same xs ys n → Common same xs (y ∷ ys) n
  pair :
      {x : A} {y : B} {xs : List A} {ys : List B} {n : ℕ}
      → same x y ≡ true
      → Common same xs ys n
      → Common same (x ∷ xs) (y ∷ ys) (suc n)

module _ {ℓ κ} {A : Type ℓ} {B : Type κ} (same : A → B → Bool) where
  -- The recursion that the table tabulates.
  unfoldable pub longest : List A → List B → ℕ
  longest [] ys = 0
  longest (x ∷ xs) [] = 0
  longest (x ∷ xs) (y ∷ ys) =
      if same x y then 1 + longest xs ys else max (longest xs (y ∷ ys)) (longest (x ∷ xs) ys)

  -- Without its first element a side has at most one pair less.
  peel_left :
      {x : A} {xs : List A} {ys : List B} {n : ℕ}
      → Common same (x ∷ xs) ys n
      → (m : ℕ) × Common same xs ys m × (n ≤ suc m)
  peel_left stop = (0, stop, omega arith)
  peel_left {n = k} (skip_left c) = (k, c, omega arith)
  peel_left (skip_right c) = let (m, d, h) = peel_left c in (m, skip_right d, h)
  peel_left (pair {n = k} e c) = (k, skip_right c, omega arith)

  peel_right :
      {y : B} {xs : List A} {ys : List B} {n : ℕ}
      → Common same xs (y ∷ ys) n
      → (m : ℕ) × Common same xs ys m × (n ≤ suc m)
  peel_right stop = (0, stop, omega arith)
  peel_right {n = k} (skip_right c) = (k, c, omega arith)
  peel_right (skip_left c) = let (m, d, h) = peel_right c in (m, skip_left d, h)
  peel_right (pair {n = k} e c) = (k, skip_left c, omega arith)

  peel_both :
      {x : A} {y : B} {xs : List A} {ys : List B} {n : ℕ}
      → Common same (x ∷ xs) (y ∷ ys) n
      → (m : ℕ) × Common same xs ys m × (n ≤ suc m)
  peel_both stop = (0, stop, omega arith)
  peel_both (skip_left c) = peel_right c
  peel_both (skip_right c) = peel_left c
  peel_both (pair {n = k} e c) = (k, c, omega arith)

  mismatch :
      {x : A} {y : B} {xs : List A} {ys : List B} {n : ℕ} (p q : ℕ)
      → same x y ≡ false
      → ((k : ℕ) → Common same xs (y ∷ ys) k → k ≤ p)
      → ((k : ℕ) → Common same (x ∷ xs) ys k → k ≤ q)
      → Common same (x ∷ xs) (y ∷ ys) n
      → n ≤ max p q
  mismatch p q e left right stop = omega arith
  mismatch p q e left right (skip_left {n = k} c) = omega (arith, left k c)
  mismatch p q e left right (skip_right {n = k} c) = omega (arith, right k c)
  mismatch p q e left right (pair equal c) = cc

  pub none_left : {ys : List B} {n : ℕ} → Common same [] ys n → n ≤ 0
  none_left stop = omega arith
  none_left (skip_right c) = none_left c

  pub none_right : {xs : List A} {n : ℕ} → Common same xs [] n → n ≤ 0
  none_right stop = omega arith
  none_right (skip_left c) = none_right c

  -- No common subsequence is longer.
  pub longest_bounds : (xs : List A) (ys : List B) (n : ℕ) → Common same xs ys n → n ≤ longest xs ys
  unfolding longest
  longest_bounds [] ys n c = none_left c
  longest_bounds (x ∷ xs) [] n c = none_right c
  longest_bounds (x ∷ xs) (y ∷ ys) n c = elim (Bool-cases (same x y)) [
    | inl e ↦ let (m, d, h) = peel_both c in rw e (omega (arith, h, longest_bounds xs ys m d))
    | inr e ↦ rw e (
        mismatch (longest xs (y ∷ ys)) (longest (x ∷ xs) ys) e (λ k. longest_bounds xs (y ∷ ys) k)
          (λ k. longest_bounds (x ∷ xs) ys k) c)
  ]

  -- The table that the loops fill, described cell by cell.
  row_of : List A → List B → List ℕ
  row_of xs [] = 0 ∷ []
  row_of xs (y ∷ ys) = longest xs (y ∷ ys) ∷ row_of xs ys

  pub table_of : List A → List B → List (List ℕ)
  table_of [] ys = row_of [] ys ∷ []
  table_of (x ∷ xs) ys = row_of (x ∷ xs) ys ∷ table_of xs ys

  head-row_of : (xs : List A) (ys : List B) → head_or (row_of xs ys) ≡ longest xs ys
  unfolding row_of longest
  head-row_of [] [] = refl
  head-row_of (x ∷ xs) [] = refl
  head-row_of xs (y ∷ ys) = refl

  first-table_of : (xs : List A) (ys : List B) → first_row (table_of xs ys) ≡ row_of xs ys
  unfolding table_of
  first-table_of [] ys = refl
  first-table_of (x ∷ xs) ys = refl

  zero_row-row_of : (ys : List B) → zero_row ys ≡ row_of [] ys
  unfolding zero_row row_of longest
  zero_row-row_of [] = refl
  zero_row-row_of (y ∷ ys) = ap (λ r. 0 ∷ r) (zero_row-row_of ys)

  module _ (prefer : ℕ → ℕ → Bool)
      (greater : (a b : ℕ) → (if prefer a b then a else b) ≡ max a b) where
    lcs_row-row_of :
        (x : A) (xs : List A) (ys : List B)
        → lcs_row same prefer x ys (row_of xs ys) ≡ row_of (x ∷ xs) ys
    unfolding lcs_row row_of longest
    lcs_row-row_of x xs [] = refl
    lcs_row-row_of x xs (y ∷ ys) =
        rw (lcs_row-row_of x xs ys, head-row_of xs ys, head-row_of (x ∷ xs) ys, greater)

    -- The loops fill every cell with the length that it stands for.
    pub lcs_table-table_of :
        (xs : List A) (ys : List B) → lcs_table same prefer xs ys ≡ table_of xs ys
    unfolding lcs_table table_of
    lcs_table-table_of [] ys = ap (λ r. r ∷ []) (zero_row-row_of ys)
    lcs_table-table_of (x ∷ xs) ys =
        rw (lcs_table-table_of xs ys, first-table_of xs ys, lcs_row-row_of x xs ys)

  -- What the walk reads at a cell that is not in the last row or column.
  pub step_down-table_of :
      (x : A) (xs : List A) (ys : List B) → step_down (table_of (x ∷ xs) ys) ≡ table_of xs ys
  unfolding step_down table_of
  step_down-table_of x xs ys = refl

  pub step_right-table_of :
      (xs : List A) (y : B) (ys : List B) → step_right (table_of xs (y ∷ ys)) ≡ table_of xs ys
  unfolding step_right table_of row_of
  step_right-table_of [] y ys = refl
  step_right-table_of (x ∷ xs) y ys = ap (λ r. row_of (x ∷ xs) ys ∷ r) (step_right-table_of xs y ys)

  pub cell_below-table_of :
      (x : A) (xs : List A) (y : B) (ys : List B)
      → cell_below (table_of (x ∷ xs) (y ∷ ys)) ≡ longest xs (y ∷ ys)
  unfolding cell_below table_of row_of
  cell_below-table_of x [] y ys = refl
  cell_below-table_of x (z ∷ xs) y ys = refl

  pub cell_right-table_of :
      (x : A) (xs : List A) (y : B) (ys : List B)
      → cell_right (table_of (x ∷ xs) (y ∷ ys)) ≡ longest (x ∷ xs) ys
  unfolding cell_right table_of row_of
  cell_right-table_of x xs y ys = head-row_of (x ∷ xs) ys
