-- ===== src/Builder/ReadReply.antt =====
-- ReadReplyPacketBuilder of src/packet_builder.cc.
pub mod Bytes
use spw_rmap.Base.{ℕ, ◌+◌, List, [], length, ltb, if◌then◌else◌, u8, shr, bit_and, bit_or}
use spw_rmap.Rmap.{
  ReadReplyPacketConfig, rmap_protocol_identifier, RmapPacketType, RmapCommandCode,
  packet_type_bits, command_bits, Result, err, Errc, ErrorCode,
}
use spw_rmap.Crc.{calc_crc}
use spw_rmap.Builder.Cursor.{Writer, ◌>>◌, run, put, put_all, put_crc}

unfoldable pub get_total_size : ReadReplyPacketConfig → ℕ
get_total_size config = length config.reply_address + 12 + length config.payload + 1

unfoldable pub instruction : ReadReplyPacketConfig → ℕ
instruction config =
    let i0 = bit_or 0 (packet_type_bits RmapPacketType.reply) in
    let i1 = bit_or i0 (command_bits RmapCommandCode.reply) in
    if config.increment_mode then bit_or i1 (command_bits RmapCommandCode.increment_address) else i1

-- The header without its CRC.
unfoldable pub put_header : ReadReplyPacketConfig → Writer
put_header config = do
  put_all config.reply_address
  put config.initiator_logical_address
  put rmap_protocol_identifier
  put (instruction config)
  put config.status
  put config.target_logical_address
  put (u8 (shr config.transaction_id 8))
  put (u8 (bit_and config.transaction_id 0xff))
  put 0x00
  put (u8 (bit_and (shr (length config.payload) 16) 0xff))
  put (u8 (bit_and (shr (length config.payload) 8) 0xff))
  put (u8 (bit_and (shr (length config.payload) 0) 0xff))

-- The header with its CRC.
unfoldable pub put_reply : ReadReplyPacketConfig → Writer
put_reply config = do put_header config; put_crc (length config.reply_address)

unfoldable pub put_packet : ReadReplyPacketConfig → Writer
put_packet config = do put_reply config; put_all config.payload; put (calc_crc config.payload 0x00)

unfoldable pub build : ReadReplyPacketConfig → List ℕ → Result (ℕ × List ℕ)
build config out =
    if ltb (length out) (get_total_size config)
    then err (ErrorCode.errc Errc.no_buffer_space)
    else run (put_packet config) out
