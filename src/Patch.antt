-- ===== src/Patch.antt =====
-- pkg/lens/format/json_patch.go: JSON pointers for the paths of changes.
pub mod Pointer
pub mod RoundTrip
