-- ===== src/Node.antt =====
-- SpwRmapTCPNodeImpl of include/spw_rmap/internal/spw_rmap_tcp_node_impl.hh.
pub mod Table
pub mod Operations
pub mod Run
pub mod Retry
pub mod Frame
pub mod Send
pub mod Serve
pub mod Link
pub mod Receive
pub mod Poll
pub mod Life
pub mod Tests
pub mod SendTests
pub mod ReceiveTests
pub mod PollTests
