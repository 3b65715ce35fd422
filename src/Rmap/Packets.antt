-- ===== src/Rmap/Packets.antt =====
-- PacketType, Packet and PacketParser::Status of include/spw_rmap/packet_parser.hh.
-- A span is the list of the bytes in it.
use spw_rmap.Base.{ℕ, List, []}

pub data PacketType : Type 0 where
  undefined read write read_reply write_reply : PacketType

pub record Packet : Type 0 where
  pub target_space_wire_address : List ℕ
  pub reply_address : List ℕ
  pub initiator_logical_address : ℕ
  pub instruction : ℕ
  pub key : ℕ
  pub status : ℕ
  pub target_logical_address : ℕ
  pub transaction_id : ℕ
  pub extended_address : ℕ
  pub address : ℕ
  pub data_length : ℕ
  pub payload : List ℕ
  pub type : PacketType

abbrev pub empty_packet : Packet
empty_packet = record {
  target_space_wire_address = [];
  reply_address = [];
  initiator_logical_address = 0;
  instruction = 0;
  key = 0;
  status = 0;
  target_logical_address = 0;
  transaction_id = 0;
  extended_address = 0;
  address = 0;
  data_length = 0;
  payload = [];
  type = PacketType.undefined;
}

pub data Status : Type 0 where
  success invalid_packet header_crc_error data_crc_error incomplete_packet : Status
  not_reply_packet packet_status_error unknown_protocol_identifier : Status
