-- ===== src/LineDiff/Align.antt =====
-- alignLines: the alignment of two lists of lines.
use stellar_xdr_lens.Prelude.{
  ◌/◌, ◌^◌, ◌≡◌, ◌∷◌, ◌++◌, if◌then◌else◌, [], refl, Text, codes, ℕ, Bool, List, leb, map, ltb,
  length, text_eq,
}
use stellar_xdr_lens.Lcs.Table.{lcs_table, step_down, step_right, cell_below, cell_right}

pub data LineKind : Type 0 where
  line_equal line_delete line_insert : LineKind

pub record AlignedPair : Type 0 where
  pub kind : LineKind
  pub left : Text
  pub right : Text

abbrev pub equal_pair : Text → Text → AlignedPair
equal_pair l r = record { kind = line_equal; left = l; right = r }

abbrev pub deletion : Text → AlignedPair
deletion l = record { kind = line_delete; left = l; right = [] }

abbrev pub insertion : Text → AlignedPair
insertion r = record { kind = line_insert; left = []; right = r }

abbrev pub max_line_alignment_cells : ℕ
max_line_alignment_cells = 2 ^ 20

-- The choice between two cells that alignLines makes, in the table and in the walk.
abbrev pub prefer_delete : ℕ → ℕ → Bool
prefer_delete below right = leb right below

-- The walk through the table. The rows start at row i, and each at column j.
unfoldable pub walk : List (List ℕ) → List Text → List Text → List AlignedPair
unfolding step_down step_right cell_below cell_right
walk rows [] ys = map insertion ys
walk rows (a ∷ xs) [] = map deletion (a ∷ xs)
walk rows (a ∷ xs) (b ∷ ys) =
    let both = equal_pair a b ∷ walk (step_right (step_down rows)) xs ys in
    let delete = deletion a ∷ walk (step_down rows) xs (b ∷ ys) in
    let insert = insertion b ∷ walk (step_right rows) (a ∷ xs) ys in
    if text_eq a b
    then both
    else if prefer_delete (cell_below rows) (cell_right rows)
    then delete
    else insert

unfoldable pub align_lines : List Text → List Text → List AlignedPair
align_lines [] ys = map insertion ys
align_lines (a ∷ xs) [] = map deletion (a ∷ xs)
align_lines (a ∷ xs) (b ∷ ys) =
    if ltb (max_line_alignment_cells / length (b ∷ ys)) (length (a ∷ xs))
    then map deletion (a ∷ xs) ++ map insertion (b ∷ ys)
    else walk (lcs_table text_eq prefer_delete (a ∷ xs) (b ∷ ys)) (a ∷ xs) (b ∷ ys)

align_runs :
    align_lines (codes "a" ∷ codes "b" ∷ []) (codes "b" ∷ codes "c" ∷ [])
    ≡ deletion (codes "a") ∷ equal_pair (codes "b") (codes "b") ∷ insertion (codes "c") ∷ []
unfolding align_lines walk lcs_table text_eq
align_runs = refl
