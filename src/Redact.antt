-- ===== src/Redact.antt =====
-- pkg/lens/diff_redact.go: hashes, signatures and named fields replaced before a comparison.
pub mod Policy
pub mod Tree
pub mod Laws
pub mod Diffed
pub mod Paths
