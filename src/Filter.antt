-- ===== src/Filter.antt =====
-- pkg/lens/diff_filter.go: which changed paths a diff reports.
pub mod Segments
pub mod Changes
pub mod Selection
