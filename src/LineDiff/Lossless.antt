-- ===== src/LineDiff/Lossless.antt =====
-- alignLines against the two texts and their common subsequences.
use stellar_xdr_lens.Prelude.{
  ◌*◌, ◌/◌, ◌≤◌, ◌≡◌, ◌∷◌, ◌++◌, if◌then◌else◌, suc, [], refl, List, Text, ℕ, All, Bool-cases, map,
  ap, ltb, text_eq, arith, inl, length, inr, text_eq_iff, ◌<◌, ltb-false,
}
use stellar_xdr_lens.LineDiff.Align.{
  AlignedPair, align_lines, walk, deletion, equal_pair, insertion, prefer_delete,
  max_line_alignment_cells, line_delete, line_equal, line_insert,
}
use stellar_xdr_lens.Lcs.Optimal.{
  Common, longest, table_of, step_down-table_of, step_right-table_of, cell_below-table_of,
  cell_right-table_of, longest_bounds, lcs_table-table_of, none_left, none_right,
}
use Prim.Native.Nat.{max}
use stellar_xdr_lens.Lcs.Table.{lcs_table, step_right, step_down, cell_below, cell_right}

-- The lines of each side, in order.
unfoldable pub lefts : List AlignedPair → List Text
lefts [] = []
lefts (p ∷ ps) = elim p.kind [ line_insert ↦ lefts ps | _ ↦ p.left ∷ lefts ps ]

unfoldable pub rights : List AlignedPair → List Text
rights [] = []
rights (p ∷ ps) = elim p.kind [ line_delete ↦ rights ps | _ ↦ p.right ∷ rights ps ]

pub equal_count : List AlignedPair → ℕ
equal_count [] = 0
equal_count (p ∷ ps) = elim p.kind [ line_equal ↦ suc (equal_count ps) | _ ↦ equal_count ps ]

-- An equal pair has one text on both sides, the others none on the side that lacks the line.
abbrev pub IsFaithful : AlignedPair → Type 0
IsFaithful p = elim p.kind [
  | line_equal ↦ p.left ≡ p.right
  | line_delete ↦ p.right ≡ []
  | line_insert ↦ p.left ≡ []
]

-- What the alignment of two texts promises.
pub record Aligns (xs ys : List Text) (pairs : List AlignedPair) : Type 0 where
  pub left_side : lefts pairs ≡ xs
  pub right_side : rights pairs ≡ ys
  pub faithful : All IsFaithful pairs

module _ where
  insertions : (ys : List Text) → Aligns [] ys (map insertion ys)
  unfolding lefts rights
  insertions [] = record { left_side = refl; right_side = refl; faithful = tt }
  insertions (y ∷ ys) =
      let ih = insertions ys in
      record {
        left_side = ih.left_side;
        right_side = ap (λ l. y ∷ l) ih.right_side;
        faithful = (refl, ih.faithful);
      }

  deletions :
      (xs ys : List Text) (pairs : List AlignedPair)
      → Aligns [] ys pairs
      → Aligns xs ys (map deletion xs ++ pairs)
  unfolding lefts rights
  deletions [] ys pairs h = h
  deletions (x ∷ xs) ys pairs h =
      let ih = deletions xs ys pairs h in
      record {
        left_side = ap (λ l. x ∷ l) ih.left_side;
        right_side = ih.right_side;
        faithful = (refl, ih.faithful);
      }

  only_deletions : (xs : List Text) → Aligns xs [] (map deletion xs)
  unfolding lefts rights
  only_deletions [] = record { left_side = refl; right_side = refl; faithful = tt }
  only_deletions (x ∷ xs) =
      let ih = only_deletions xs in
      record {
        left_side = ap (λ l. x ∷ l) ih.left_side;
        right_side = ih.right_side;
        faithful = (refl, ih.faithful);
      }

  both_lines :
      (x y : Text) {xs ys : List Text} {pairs : List AlignedPair}
      → x ≡ y
      → Aligns xs ys pairs
      → Aligns (x ∷ xs) (y ∷ ys) (equal_pair x y ∷ pairs)
  unfolding lefts rights
  both_lines x y e h = record {
    left_side = ap (λ l. x ∷ l) h.left_side;
    right_side = ap (λ l. y ∷ l) h.right_side;
    faithful = (e, h.faithful);
  }

  left_line :
      (x : Text) {xs ys : List Text} {pairs : List AlignedPair}
      → Aligns xs ys pairs
      → Aligns (x ∷ xs) ys (deletion x ∷ pairs)
  unfolding lefts rights
  left_line x h = record {
    left_side = ap (λ l. x ∷ l) h.left_side;
    right_side = h.right_side;
    faithful = (refl, h.faithful);
  }

  right_line :
      (y : Text) {xs ys : List Text} {pairs : List AlignedPair}
      → Aligns xs ys pairs
      → Aligns xs (y ∷ ys) (insertion y ∷ pairs)
  unfolding lefts rights
  right_line y h = record {
    left_side = h.left_side;
    right_side = ap (λ l. y ∷ l) h.right_side;
    faithful = (refl, h.faithful);
  }

-- Whatever the table holds, the walk loses no line.
walk-Aligns : (rows : List (List ℕ)) (xs ys : List Text) → Aligns xs ys (walk rows xs ys)
unfolding walk
walk-Aligns rows [] ys = insertions ys
walk-Aligns rows (x ∷ xs) [] = only_deletions (x ∷ xs)
walk-Aligns rows (x ∷ xs) (y ∷ ys) = elim (Bool-cases (text_eq x y)) [
  | inl same ↦
      rw same (
        both_lines x y ((text_eq_iff x y).0 same) (walk-Aligns (step_right (step_down rows)) xs ys))
  | inr other ↦ elim (Bool-cases (prefer_delete (cell_below rows) (cell_right rows))) [
    | inl down ↦ rw (other, down) (left_line x (walk-Aligns (step_down rows) xs (y ∷ ys)))
    | inr across ↦ rw (other, across) (right_line y (walk-Aligns (step_right rows) (x ∷ xs) ys))
  ]
]

-- For any two texts, the left lines of the alignment are the left text and its right lines the right
-- text, both in order; an equal pair carries one text twice, a deletion has no right text, and an
-- insertion no left text. This holds for texts above the size limit too.
pub align_lines-Aligns : (xs ys : List Text) → Aligns xs ys (align_lines xs ys)
unfolding align_lines
align_lines-Aligns [] ys = insertions ys
align_lines-Aligns (x ∷ xs) [] = only_deletions (x ∷ xs)
align_lines-Aligns (x ∷ xs) (y ∷ ys) =
    elim (Bool-cases (ltb (max_line_alignment_cells / length (y ∷ ys)) (length (x ∷ xs)))) [
      | inl large ↦
          rw large (deletions (x ∷ xs) (y ∷ ys) (map insertion (y ∷ ys)) (insertions (y ∷ ys)))
      | inr small ↦
          rw small
            (walk-Aligns (lcs_table text_eq prefer_delete (x ∷ xs) (y ∷ ys)) (x ∷ xs) (y ∷ ys))
    ]

-- On the table of the two texts the walk keeps as many equal lines as the longest common subsequence.
count-insertions : (ys : List Text) → equal_count (map insertion ys) ≡ 0
unfolding equal_count
count-insertions [] = refl
count-insertions (y ∷ ys) = count-insertions ys

count-deletions : (xs : List Text) → equal_count (map deletion xs) ≡ 0
unfolding equal_count
count-deletions [] = refl
count-deletions (x ∷ xs) = count-deletions xs

walk_optimal :
    (xs ys : List Text) → equal_count (walk (table_of text_eq xs ys) xs ys) ≡ longest text_eq xs ys
unfolding walk longest equal_count
walk_optimal [] ys = count-insertions ys
walk_optimal (x ∷ xs) [] = count-deletions (x ∷ xs)
walk_optimal (x ∷ xs) (y ∷ ys) =
    let rows = table_of text_eq (x ∷ xs) (y ∷ ys) in
    elim (Bool-cases (text_eq x y)) [
      | inl same ↦
          rw (same, step_down-table_of text_eq x xs (y ∷ ys), step_right-table_of text_eq xs y ys)
            (omega (arith, walk_optimal xs ys))
      | inr other ↦
          let below = cell_below-table_of text_eq x xs y ys in
          let right = cell_right-table_of text_eq x xs y ys in
          elim (Bool-cases
            (prefer_delete (longest text_eq xs (y ∷ ys)) (longest text_eq (x ∷ xs) ys))) [
              | inl down ↦
                  rw (other, below, right, down, step_down-table_of text_eq x xs (y ∷ ys))
                    (ground (arith, walk_optimal xs (y ∷ ys)))
              | inr across ↦
                  rw (other, below, right, across, step_right-table_of text_eq (x ∷ xs) y ys)
                    (ground (arith, walk_optimal (x ∷ xs) ys))
            ]
    ]

greater : (a b : ℕ) → (if prefer_delete a b then a else b) ≡ max a b
greater a b = ground arith

le_quotient : (m k limit : ℕ) → 0 < k → m * k ≤ limit → m ≤ limit / k
le_quotient m k limit pos h = grind arith

-- Within the size limit, no common subsequence of the two texts is longer than the number of equal
-- lines of the alignment.
pub align_lines_optimal :
    (xs ys : List Text) (n : ℕ)
    → Common text_eq xs ys n
    → length xs * length ys ≤ max_line_alignment_cells
    → n ≤ equal_count (align_lines xs ys)
unfolding align_lines
align_lines_optimal [] ys n c fits = omega (arith, count-insertions ys, none_left text_eq c)
align_lines_optimal (x ∷ xs) [] n c fits =
    omega (arith, count-deletions (x ∷ xs), none_right text_eq c)
align_lines_optimal (x ∷ xs) (y ∷ ys) n c fits =
    rw
      (
        ltb-false _ _ (
            le_quotient (length (x ∷ xs)) (length (y ∷ ys)) max_line_alignment_cells (omega arith)
              fits),
        lcs_table-table_of text_eq prefer_delete greater (x ∷ xs) (y ∷ ys),
        walk_optimal (x ∷ xs) (y ∷ ys),
      )
      (longest_bounds text_eq (x ∷ xs) (y ∷ ys) n c)
