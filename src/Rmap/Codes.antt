-- ===== src/Rmap/Codes.antt =====
-- include/spw_rmap/rmap_packet_type.hh, and PacketStatusCode of packet_parser.hh.
use spw_rmap.Base.{ℕ}

abbrev pub rmap_protocol_identifier : ℕ
rmap_protocol_identifier = 0x01

pub data RmapPacketType : Type 0 where
  command reply : RmapPacketType

pub data RmapCommandCode : Type 0 where
  write verify_data_before_write reply increment_address : RmapCommandCode

-- `std::to_underlying` of either enum.
abbrev pub packet_type_bits : RmapPacketType → ℕ
packet_type_bits RmapPacketType.command = 0b01000000
packet_type_bits RmapPacketType.reply = 0b00000000

abbrev pub command_bits : RmapCommandCode → ℕ
command_bits RmapCommandCode.write = 0b00100000
command_bits RmapCommandCode.verify_data_before_write = 0b00010000
command_bits RmapCommandCode.reply = 0b00001000
command_bits RmapCommandCode.increment_address = 0b00000100

pub data PacketStatusCode : Type 0 where
  command_executed_successfully general_error_code : PacketStatusCode
  unused_rmap_packet_type_or_command_code invalid_key invalid_data_crc : PacketStatusCode
  early_eop too_much_data eep verify_buffer_overrun : PacketStatusCode
  rmap_command_not_implemented_or_not_authorised rmw_data_length_error : PacketStatusCode
  invalid_target_logical_address : PacketStatusCode

abbrev pub status_code : PacketStatusCode → ℕ
status_code PacketStatusCode.command_executed_successfully = 0
status_code PacketStatusCode.general_error_code = 1
status_code PacketStatusCode.unused_rmap_packet_type_or_command_code = 2
status_code PacketStatusCode.invalid_key = 3
status_code PacketStatusCode.invalid_data_crc = 4
status_code PacketStatusCode.early_eop = 5
status_code PacketStatusCode.too_much_data = 6
status_code PacketStatusCode.eep = 7
status_code PacketStatusCode.verify_buffer_overrun = 9
status_code PacketStatusCode.rmap_command_not_implemented_or_not_authorised = 10
status_code PacketStatusCode.rmw_data_length_error = 11
status_code PacketStatusCode.invalid_target_logical_address = 12
