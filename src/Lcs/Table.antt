-- ===== src/Lcs/Table.antt =====
-- Row i of the table holds lcs[i][0..len(b)]; the last row and the last column are zero.
use stellar_xdr_lens.Prelude.{◌+◌, ◌∷◌, if◌then◌else◌, [], Bool, List, ℕ}

abbrev pub head_or : List ℕ → ℕ
head_or [] = 0
head_or (n ∷ ns) = n

abbrev pub first_row : List (List ℕ) → List ℕ
first_row [] = []
first_row (r ∷ rs) = r

unfoldable pub zero_row {κ} : {B : Type κ} → List B → List ℕ
zero_row [] = 0 ∷ []
zero_row (y ∷ ys) = 0 ∷ zero_row ys

module _ {ℓ κ} {A : Type ℓ} {B : Type κ} (same : A → B → Bool) (prefer_below : ℕ → ℕ → Bool) where
  -- `below` is lcs[i+1][j] and `right` is lcs[i][j+1].
  unfoldable pub lcs_cell : Bool → ℕ → ℕ → ℕ → ℕ
  lcs_cell equal diagonal below right =
      if equal then 1 + diagonal else if prefer_below below right then below else right

  -- A row from the row below it, right to left.
  unfoldable pub lcs_row : A → List B → List ℕ → List ℕ
  unfolding lcs_cell
  lcs_row x [] below = 0 ∷ []
  lcs_row x (y ∷ ys) [] = []
  lcs_row x (y ∷ ys) (d ∷ below) =
      let rest = lcs_row x ys below in lcs_cell (same x y) (head_or below) d (head_or rest) ∷ rest

  -- The rows from the first to the last.
  unfoldable pub lcs_table : List A → List B → List (List ℕ)
  unfolding lcs_row zero_row
  lcs_table [] ys = zero_row ys ∷ []
  lcs_table (x ∷ xs) ys = let rows = lcs_table xs ys in lcs_row x ys (first_row rows) ∷ rows

-- A walk stands at a cell: the rows from i on, and each from column j on.
unfoldable pub step_right : List (List ℕ) → List (List ℕ)
step_right [] = []
step_right ([] ∷ rows) = [] ∷ step_right rows
step_right ((n ∷ r) ∷ rows) = r ∷ step_right rows

unfoldable pub step_down : List (List ℕ) → List (List ℕ)
step_down [] = []
step_down (r ∷ rows) = rows

-- lcs[i+1][j] and lcs[i][j+1].
unfoldable pub cell_below : List (List ℕ) → ℕ
cell_below [] = 0
cell_below (r ∷ []) = 0
cell_below (r ∷ s ∷ rows) = head_or s

unfoldable pub cell_right : List (List ℕ) → ℕ
cell_right [] = 0
cell_right ([] ∷ rows) = 0
cell_right ((n ∷ r) ∷ rows) = head_or r
