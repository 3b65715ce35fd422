-- ===== src/Builder.antt =====
-- src/packet_builder.cc: the four packet builders. `build` takes the output span and returns the
-- size and the span after the call; the size is also what `getTotalSize` promises (Builder/Laws).
pub mod Cursor
pub mod Layout
pub mod Command
pub mod Read
pub mod Write
pub mod ReadReply
pub mod WriteReply
pub mod Samples
mod Tests
