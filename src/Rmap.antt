-- ===== src/Rmap.antt =====
-- The data of the RMAP protocol: the codes of include/spw_rmap/rmap_packet_type.hh, the packet, its
-- types and statuses of include/spw_rmap/packet_parser.hh, the configurations of
-- include/spw_rmap/packet_builder.hh, and the results of fallible calls.
mod Codes
mod Packets
mod Configs
mod Results
pub use Codes.*
pub use Packets.*
pub use Configs.*
pub use Results.*
