-- ===== src/Wasm.antt =====
-- pkg/lens/wasm_disasm.go: WebAssembly modules taken apart, byte by byte.
pub mod Reader
pub mod Leb
pub mod Takes
pub mod Module
pub mod Code
pub mod Sections
pub mod Parse
pub mod Search
pub mod Total
mod TotalCode
pub mod Space
pub mod Gives
pub mod Invariant
pub mod Leaves
pub mod Offsets
pub mod Found
pub mod Write
pub mod RoundTrip
pub mod Contents
pub mod Link
