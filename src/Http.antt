-- ===== src/Http.antt =====
-- src/protocol/http.h and src/protocol/http.cpp: requests, and the incremental response parser.
pub mod Message
pub mod Number
pub mod Parser
pub mod Feed
pub mod Body
pub mod Chunks
pub mod Steady
pub mod Pieces
pub mod Lines
pub mod Sound
pub mod Drained
pub mod Decimal
mod Tests
