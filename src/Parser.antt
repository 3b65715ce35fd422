-- ===== src/Parser.antt =====
-- src/packet_parser.cc: PacketParser. The parser keeps the packet that it fills in, also what an
-- earlier call left there; a call returns a status and the packet, or `none` where it would read
-- outside the span.
pub mod Monad
pub mod Fields
pub mod Commands
pub mod Replies
pub mod Dispatch
mod Tests
