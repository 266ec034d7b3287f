-- ===== src/Net.antt =====
-- src/net/network.h and src/net/network.cpp: the network worker.
pub mod Errors
pub mod Commands
pub mod Flush
pub mod Impl
pub mod Handlers
pub mod Poll
pub mod Linked
pub mod Opened
pub mod Polled
pub mod Interface
pub mod Fresh
pub mod Lifecycle
pub mod Standing
pub mod Recycle
mod Tests
