-- ===== src/Encoding.antt =====
-- What the program uses of Go's encoding/binary, encoding/hex, encoding/base64 and strings.TrimSpace.
pub mod Big
pub mod Hex
pub mod Base64
pub mod Space
