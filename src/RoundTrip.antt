-- ===== src/RoundTrip.antt =====
-- src/packet_parser.cc against src/packet_builder.cc: what a builder writes, the parser reads back.
pub mod Command
pub mod Read
pub mod Write
pub mod ReadReply
pub mod WriteReply
mod Tests
