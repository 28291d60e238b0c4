-- ===== src/Tui.antt =====
-- internal/cli/tui_tree.go: the interactive explorer of a decoded tree.
pub mod Rows
pub mod State
pub mod Render
pub mod Keys
pub mod Marks
pub mod Matches
pub mod Shown
pub mod Reached
pub mod Expanded
pub mod Selection
pub mod Typed
pub mod ReadKeys
pub mod Ends
