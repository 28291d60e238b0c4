-- ===== src/LineDiff.antt =====
-- pkg/lens/format/linediff.go: line-level diffs of flattened values.
pub mod Align
pub mod Lossless
pub mod Hunks
pub mod Coverage
pub mod Disjoint
