-- ===== src/LineDiff/Disjoint.antt =====
-- The bounds of the hunks of buildHunks, in order.
use stellar_xdr_lens.Prelude.{◌-◌, ◌≤◌, ◌<◌, ◌≡◌, ◌∷◌, [], true, ℕ, List, drop, length}
use stellar_xdr_lens.LineDiff.Hunks.{AlignedHunk}
use stellar_xdr_lens.LineDiff.Coverage.{starts_with_change}
use stellar_xdr_lens.LineDiff.Align.{AlignedPair}
use stellar_xdr_lens.LineDiff.Lossless.{lefts, rights}

-- The ranges from `low` on are in order, not empty, do not overlap, and end within a size.
abbrev pub InOrder : ℕ → ℕ → List (ℕ × ℕ) → Type 0
InOrder size low [] = Unit {0}
InOrder size low ((start, end) ∷ ranges) =
    (low ≤ start) × (start < end) × (end ≤ size) × InOrder size end ranges

-- Every change from i on is so far behind `low` that its hunk does not reach it.
abbrev Clear : ℕ → List AlignedPair → ℕ → ℕ → Type 0
Clear context pairs low i =
    (k : ℕ) → i ≤ k → starts_with_change (drop k pairs) ≡ true → low ≤ k - context

-- The counts in the head of a hunk are the numbers of its left lines, those of equal pairs and
-- deletions, and of its right lines, those of equal pairs and insertions.
abbrev pub IsCounted : AlignedHunk → Type 0
IsCounted h = (h.old_count ≡ length (lefts h.lines)) × (h.new_count ≡ length (rights h.lines))
