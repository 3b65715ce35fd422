-- ===== src/Builder/Write/Bytes.antt =====
-- What WritePacketBuilder::build writes.
use spw_rmap.Base.{
  ℕ, ◌+◌, ◌*◌, ◌%◌, ◌≤◌, ◌≡◌, List, ◌∷◌, ◌++◌, length, append_assoc, ltb, if◌then◌else◌, drop,
  length-append, tests, arith, Bool-cases, inl, inr,
}
use spw_rmap.Rmap.{WritePacketConfig, ok, err, Errc, ErrorCode}
use spw_rmap.Builder.Cursor.{
  run-eq, Writes, Writes-cons, Writes->>, Writes-put, Writes-put_all, Fills, Fills-crc, Fills->>,
}
use spw_rmap.Builder.Layout.{
  reply_address_size-eq, reply_words, padded, with_crc, flag, command_tail, length-padded,
  length-with_crc,
}
use spw_rmap.Builder.Command.{or_words, Writes-padded, put_command_tail-Writes}
use spw_rmap.Builder.Write.{
  get_total_size, mode_bits, instruction, put_header, put_command, put_packet, build,
}

-- The instruction of a write command: command, write, the mode bits, and the reply words.
abbrev pub write_instruction : WritePacketConfig → ℕ
write_instruction config =
    0x60
    + flag config.reply 8
    + flag config.verify_mode 16
    + flag config.increment_mode 4
    + reply_words config.reply_address

-- The header of a write command, without its CRC.
abbrev pub write_header : WritePacketConfig → List ℕ
write_header config =
    config.target_logical_address
    ∷ 1
    ∷ write_instruction config
    ∷ config.key
    ∷ (padded config.reply_address
        ++ command_tail config.initiator_logical_address config.transaction_id
            config.extended_address config.address (length config.payload))

abbrev pub write_packet : WritePacketConfig → List ℕ
write_packet config =
    config.target_space_wire_address ++ (with_crc (write_header config) ++ with_crc config.payload)

write_modes : WritePacketConfig → ℕ
write_modes config =
    0x60 + flag config.reply 8 + flag config.verify_mode 16 + flag config.increment_mode 4

mode_bits-eq :
    (config : WritePacketConfig)
    → (mode_bits config ≡ write_modes config)
      × (write_modes config % 4 ≡ 0)
      × (write_modes config ≤ 0x7c)
unfolding mode_bits write_modes
mode_bits-eq config = (ground arith, ground arith, ground arith)

instruction-eq :
    (config : WritePacketConfig)
    → length config.reply_address ≤ 12
    → instruction config (reply_words config.reply_address * 4) ≡ write_instruction config
unfolding instruction write_modes
instruction-eq config h =
    let (e, low, small) = mode_bits-eq config in
    rw e (or_words (write_modes config) (length config.reply_address) h low small)

put_header-Writes :
    (config : WritePacketConfig)
    → length config.reply_address ≤ 12
    → Writes
        (put_header config (reply_words config.reply_address * 4))
        (config.target_space_wire_address ++ write_header config)
unfolding put_header
put_header-Writes config h = Writes->> (Writes-put_all config.target_space_wire_address) (
    Writes-cons (
      Writes-cons (
        rw (instruction-eq config h) (
          Writes-cons (
            Writes-cons
              (Writes-padded config.reply_address (put_command_tail-Writes _ _ _ _ _)))))))

put_packet-Fills :
    (config : WritePacketConfig)
    → length config.reply_address ≤ 12
    → Fills (put_packet config (reply_words config.reply_address * 4)) (write_packet config)
unfolding put_packet put_command
put_packet-Fills config h =
    rw
      (← append_assoc config.target_space_wire_address (with_crc (write_header config))
        (with_crc config.payload))
      (Fills->> (Fills-crc _ _ (put_header-Writes config h))
        (Writes->> (Writes-put_all config.payload) Writes-put))

pub length-write_packet :
    (config : WritePacketConfig) → length (write_packet config) ≡ get_total_size config
unfolding get_total_size
length-write_packet config = omega (
  arith,
  length-append config.target_space_wire_address
      (with_crc (write_header config) ++ with_crc config.payload),
  length-append (with_crc (write_header config)) (with_crc config.payload),
  length-with_crc (write_header config),
  length-with_crc config.payload,
  length-append (padded config.reply_address) (
      command_tail config.initiator_logical_address config.transaction_id config.extended_address
        config.address (length config.payload)),
  length-padded config.reply_address,
)

-- With a reply address of at most 12 bytes, `build` refuses a span shorter than `getTotalSize`, and
-- otherwise returns that size and writes exactly the write command with its data, leaving the rest
-- of the span.
pub build-write_packet :
    (config : WritePacketConfig) (out : List ℕ)
    → length config.reply_address ≤ 12
    → build config out ≡ (
        if ltb (length out) (get_total_size config)
        then err (ErrorCode.errc Errc.no_buffer_space)
        else ok (get_total_size config, write_packet config ++ drop (get_total_size config) out))
unfolding build
build-write_packet config out h = elim (Bool-cases (ltb (length out) (get_total_size config))) [
  | inl e ↦ rw e
  | inr e ↦
      rw (e, reply_address_size-eq (length config.reply_address) h, ← length-write_packet config)
        (run-eq (put_packet-Fills config h) out (omega (tests, length-write_packet config)))
]
