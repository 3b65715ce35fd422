-- ===== src/Tcp.antt =====
-- The TCP backends of src/tcp_client.cc and src/tcp_server.cc.
pub mod System
pub mod Steps
pub mod Promises
pub mod Delivery
pub mod Stream
pub mod Options
pub mod Client
pub mod Server
pub mod Sample
pub mod Tests
