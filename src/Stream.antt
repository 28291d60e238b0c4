-- ===== src/Stream.antt =====
-- pkg/lens/stream_parser.go: framed streams of XDR records, read one record at a time.
pub mod Parser
pub mod Read
pub mod Next
pub mod Write
pub mod ReadFull
mod Fragments
pub mod RoundTrip
pub mod Lines
pub mod Sound
pub mod Session
pub mod Replay
pub mod Limit
pub mod Truncation
