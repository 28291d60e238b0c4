-- ===== src/Lcs.antt =====
-- The table of longest common subsequences that diffAlignedLists (pkg/lens/diff.go) and alignLines
-- (pkg/lens/format/linediff.go) fill, and its meaning.
pub mod Table
pub mod Optimal
