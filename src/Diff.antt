-- ===== src/Diff.antt =====
-- pkg/lens/diff.go, with the lists of signers of pkg/lens/signer_diff.go: the structural diff.
pub mod Change
pub mod Scalar
pub mod Same
pub mod Memo
pub mod Ledger
pub mod Signers
pub mod Greedy
pub mod Events
pub mod Children
pub mod Collections
pub mod Walk
pub mod Multiset
pub mod Reflexive
pub mod SelfEqual
pub mod SelfFields
pub mod Equal
pub mod Shape
pub mod WellFormed
pub mod Created
pub mod Pairing
pub mod Stats
pub mod Quorum
pub mod Power
pub mod Tallies
pub mod Totals
