-- ===== src/MultiStream.antt =====
-- pkg/lens/multi_stream.go: records on lines of their own.
pub mod Scanner
pub mod Decoder
pub mod Numbering
pub mod Advance
pub mod Total
pub mod Write
pub mod HexLines
pub mod HexBack
