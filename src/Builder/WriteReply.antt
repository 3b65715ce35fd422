-- ===== src/Builder/WriteReply.antt =====
-- WriteReplyPacketBuilder of src/packet_builder.cc.
pub mod Bytes
use spw_rmap.Base.{ℕ, ◌+◌, List, length, ltb, if◌then◌else◌, u8, shr, bit_and, bit_or}
use spw_rmap.Rmap.{
  WriteReplyPacketConfig, RmapPacketType, RmapCommandCode, packet_type_bits, command_bits, Result,
  err, Errc, ErrorCode,
}
use spw_rmap.Builder.Cursor.{Writer, ◌>>◌, run, put, put_all, put_crc}

unfoldable pub get_total_size : WriteReplyPacketConfig → ℕ
get_total_size config = length config.reply_address + 8

unfoldable pub instruction : WriteReplyPacketConfig → ℕ
instruction config =
    let i0 = bit_or 0 (packet_type_bits RmapPacketType.reply) in
    let i1 = bit_or i0 (command_bits RmapCommandCode.write) in
    let i2 = bit_or i1 (command_bits RmapCommandCode.reply) in
    let i3 =
      if config.verify_mode
      then bit_or i2 (command_bits RmapCommandCode.verify_data_before_write)
      else i2 in
    if config.increment_mode then bit_or i3 (command_bits RmapCommandCode.increment_address) else i3

-- The header without its CRC.
unfoldable pub put_header : WriteReplyPacketConfig → Writer
put_header config = do
  put_all config.reply_address
  put config.initiator_logical_address
  put 0x01
  put (instruction config)
  put config.status
  put config.target_logical_address
  put (u8 (shr config.transaction_id 8))
  put (u8 (bit_and config.transaction_id 0xff))

unfoldable pub put_packet : WriteReplyPacketConfig → Writer
put_packet config = do put_header config; put_crc (length config.reply_address)

unfoldable pub build : WriteReplyPacketConfig → List ℕ → Result (ℕ × List ℕ)
build config out =
    if ltb (length out) (get_total_size config)
    then err (ErrorCode.errc Errc.no_buffer_space)
    else run (put_packet config) out
