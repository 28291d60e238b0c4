-- ===== src/Tests.antt =====
-- The theorems at concrete inputs of the modelled files.
mod Streams
mod Lines
mod Trees
mod Filters
mod Modules
mod Redactions
mod Inputs
mod Multi
mod Explorer
mod Payloads
