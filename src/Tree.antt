-- ===== src/Tree.antt =====
-- pkg/lens/node.go: the neutral tree that the differ and the formatters work on. A tree holds no nil
-- child, since buildNode makes none; a node that may be nil is an Option.
pub mod Value
pub mod Path
pub mod Query
