-- ===== src/Tls.antt =====
-- src/net/ssl.cpp: `SslClient`, with the answers of wolfSSL and of the sockets as arguments.
pub mod Wait
pub mod Client
pub mod Transfer
pub mod Get
pub mod Owned
pub mod Calls
pub mod Sent
pub mod Exchange
mod Tests
