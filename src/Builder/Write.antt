-- ===== src/Builder/Write.antt =====
-- WritePacketBuilder of src/packet_builder.cc.
pub mod Bytes
use spw_rmap.Base.{
  ℕ, ◌+◌, ◌*◌, ◌/◌, List, [], ◌++◌, length, ltb, ◌==◌, if◌then◌else◌, none, some, u8, shr, bit_or,
}
use spw_rmap.Rmap.{
  WritePacketConfig, rmap_protocol_identifier, RmapPacketType, RmapCommandCode, packet_type_bits,
  command_bits, Result, err, fault, Errc, ErrorCode,
}
use spw_rmap.Crc.{calc_crc}
use spw_rmap.Builder.Cursor.{Writer, ◌>>◌, run, put, put_all, put_crc}
use spw_rmap.Builder.Layout.{reply_address_size}
use spw_rmap.Builder.Command.{put_padding, put_command_tail}

unfoldable pub get_total_size : WritePacketConfig → ℕ
get_total_size config =
    length config.target_space_wire_address
    + 4
    + (length config.reply_address + 3) / 4 * 4
    + 12
    + length config.payload
    + 1

-- The instruction field before the reply address is looked at.
unfoldable pub mode_bits : WritePacketConfig → ℕ
mode_bits config =
    let i0 = bit_or 0 (packet_type_bits RmapPacketType.command) in
    let i1 = bit_or i0 (command_bits RmapCommandCode.write) in
    let i2 = if config.reply then bit_or i1 (command_bits RmapCommandCode.reply) else i1 in
    let i3 =
      if config.verify_mode
      then bit_or i2 (command_bits RmapCommandCode.verify_data_before_write)
      else i2 in
    if config.increment_mode then bit_or i3 (command_bits RmapCommandCode.increment_address) else i3

-- The instruction field; `size` is `replyAddressSize` behind the rounding.
unfoldable pub instruction : WritePacketConfig → ℕ → ℕ
instruction config size =
    if length config.reply_address == 0
    then mode_bits config
    else u8 (bit_or (mode_bits config) (shr size 2))

-- The header without its CRC.
unfoldable pub put_header : WritePacketConfig → ℕ → Writer
put_header config size = do
  put_all config.target_space_wire_address
  put config.target_logical_address
  put rmap_protocol_identifier
  put (instruction config size)
  put config.key
  put_padding size (length config.reply_address)
  put_all config.reply_address
  put_command_tail config.initiator_logical_address config.transaction_id config.extended_address
      config.address (length config.payload)

-- The header with its CRC.
unfoldable pub put_command : WritePacketConfig → ℕ → Writer
put_command config size = do
  put_header config size
  put_crc (length config.target_space_wire_address)

unfoldable pub put_packet : WritePacketConfig → ℕ → Writer
put_packet config size = do
  put_command config size
  put_all config.payload
  put (calc_crc config.payload 0x00)

unfoldable pub build : WritePacketConfig → List ℕ → Result (ℕ × List ℕ)
build config out =
    if ltb (length out) (get_total_size config)
    then err (ErrorCode.errc Errc.no_buffer_space)
    else elim (reply_address_size (length config.reply_address)) [
      | none ↦ fault
      | some size ↦ run (put_packet config size) out
    ]
