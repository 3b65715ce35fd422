-- ===== src/Builder/Read.antt =====
-- ReadPacketBuilder of src/packet_builder.cc.
pub mod Bytes
use spw_rmap.Base.{
  ℕ, zero, suc, ◌+◌, ◌-◌, ◌*◌, ◌/◌, ◌%◌, ◌^◌, ◌≤◌, ◌<◌, ◌≡◌, refl, List, [], ◌∷◌, ◌++◌, length, ltb,
  ◌==◌, if◌then◌else◌, Option, none, some, u8, shr, bit_and, bit_or, drop, length-append,
  length-replicate, arith,
}
use spw_rmap.Rmap.{
  ReadPacketConfig, rmap_protocol_identifier, RmapPacketType, RmapCommandCode, packet_type_bits,
  command_bits, Result, ok, err, fault, ◌>>=◌, Errc, ErrorCode,
}
use spw_rmap.Crc.{calc_crc}
use spw_rmap.Builder.Cursor.{Writer, ◌>>◌, run, put, put_all, put_zeros, put_crc}
use spw_rmap.Builder.Layout.{reply_address_size}
use spw_rmap.Builder.Command.{put_padding, put_command_tail}

unfoldable pub get_total_size : ReadPacketConfig → ℕ
get_total_size config =
    length config.target_space_wire_address + 4 + (length config.reply_address + 3) / 4 * 4 + 12

-- The instruction field; `size` is `replyAddressSize` behind the rounding.
unfoldable pub instruction : ReadPacketConfig → ℕ → ℕ
instruction config size =
    let i0 = bit_or 0 (packet_type_bits RmapPacketType.command) in
    let i1 = bit_or i0 (command_bits RmapCommandCode.reply) in
    let i2 =
      if config.increment_mode
      then bit_or i1 (command_bits RmapCommandCode.increment_address)
      else i1 in
    if length config.reply_address == 0 then i2 else u8 (bit_or i2 (shr size 2))

-- The header without its CRC.
unfoldable pub put_header : ReadPacketConfig → ℕ → Writer
put_header config size = do
  put_all config.target_space_wire_address
  put config.target_logical_address
  put rmap_protocol_identifier
  put (instruction config size)
  put config.key
  put_padding size (length config.reply_address)
  put_all config.reply_address
  put_command_tail config.initiator_logical_address config.transaction_id config.extended_address
      config.address config.data_length

unfoldable pub put_packet : ReadPacketConfig → ℕ → Writer
put_packet config size = do
  put_header config size
  put_crc (length config.target_space_wire_address)

unfoldable pub build : ReadPacketConfig → List ℕ → Result (ℕ × List ℕ)
build config out =
    if ltb (length out) (get_total_size config)
    then err (ErrorCode.errc Errc.no_buffer_space)
    else elim (reply_address_size (length config.reply_address)) [
      | none ↦ fault
      | some size ↦ run (put_packet config size) out
    ]
