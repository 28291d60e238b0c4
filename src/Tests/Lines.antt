-- ===== src/Tests/Lines.antt =====
-- Alignments of linediff.go.
use stellar_xdr_lens.Lcs.Optimal.{skip_left, pair, stop}
use stellar_xdr_lens.Prelude.{◌≤◌, ◌∷◌, [], List, Text, codes, text_eq_refl, arith}
use stellar_xdr_lens.LineDiff.Lossless.{
  Aligns, equal_count, align_lines-Aligns, align_lines_optimal,
}
use stellar_xdr_lens.LineDiff.Align.{align_lines, AlignedPair, deletion, equal_pair, insertion}

abbrev old_lines : List Text
old_lines = codes "a = 1" ∷ codes "b = 2" ∷ codes "c = 3" ∷ []

abbrev new_lines : List Text
new_lines = codes "b = 2" ∷ codes "c = 4" ∷ []

align_lines-Aligns_example : Aligns old_lines new_lines (align_lines old_lines new_lines)
align_lines-Aligns_example = align_lines-Aligns old_lines new_lines

align_lines_optimal_example : 1 ≤ equal_count (align_lines old_lines new_lines)
align_lines_optimal_example =
    align_lines_optimal old_lines new_lines 1 (skip_left (pair (text_eq_refl (codes "b = 2")) stop))
      (omega arith)

-- One deletion, one equal line, one insertion.
abbrev three_pairs : List AlignedPair
three_pairs =
    deletion (codes "a = 1")
    ∷ equal_pair (codes "b = 2") (codes "b = 2")
    ∷ insertion (codes "c = 4")
    ∷ []
