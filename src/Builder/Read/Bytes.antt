-- ===== src/Builder/Read/Bytes.antt =====
-- What ReadPacketBuilder::build writes.
use spw_rmap.Base.{
  ℕ, ◌+◌, ◌*◌, ◌≤◌, ◌≡◌, refl, List, ◌∷◌, ◌++◌, length, ltb, if◌then◌else◌, drop, length-append,
  tests, arith, Bool-cases, inl, inr,
}
use spw_rmap.Rmap.{ReadPacketConfig, ok, err, Errc, ErrorCode}
use spw_rmap.Builder.Cursor.{Writes, Writes-cons, Writes->>, Writes-put_all, Fills-crc, run-eq}
use spw_rmap.Builder.Layout.{
  reply_address_size-eq, reply_words, padded, with_crc, flag, command_tail, length-padded,
  length-with_crc,
}
use spw_rmap.Builder.Command.{or_words, Writes-padded, put_command_tail-Writes}
use spw_rmap.Builder.Read.{get_total_size, instruction, put_header, put_packet, build}

-- The instruction of a read command: command, reply, the increment bit, and the reply words.
abbrev pub read_instruction : ReadPacketConfig → ℕ
read_instruction config = 0x48 + flag config.increment_mode 4 + reply_words config.reply_address

-- The header of a read command, without its CRC.
abbrev pub read_header : ReadPacketConfig → List ℕ
read_header config =
    config.target_logical_address
    ∷ 1
    ∷ read_instruction config
    ∷ config.key
    ∷ (padded config.reply_address
        ++ command_tail config.initiator_logical_address config.transaction_id
            config.extended_address config.address config.data_length)

abbrev pub read_packet : ReadPacketConfig → List ℕ
read_packet config = config.target_space_wire_address ++ with_crc (read_header config)

instruction-eq :
    (config : ReadPacketConfig)
    → length config.reply_address ≤ 12
    → instruction config (reply_words config.reply_address * 4) ≡ read_instruction config
unfolding instruction
instruction-eq config h = elim (Bool-cases config.increment_mode) [
  | inl e ↦ rw e (or_words 0x4c (length config.reply_address) h refl (omega arith))
  | inr e ↦ rw e (or_words 0x48 (length config.reply_address) h refl (omega arith))
]

put_header-Writes :
    (config : ReadPacketConfig)
    → length config.reply_address ≤ 12
    → Writes
        (put_header config (reply_words config.reply_address * 4))
        (config.target_space_wire_address ++ read_header config)
unfolding put_header
put_header-Writes config h = Writes->> (Writes-put_all config.target_space_wire_address) (
    Writes-cons (
      Writes-cons (
        rw (instruction-eq config h) (
          Writes-cons (
            Writes-cons
              (Writes-padded config.reply_address (put_command_tail-Writes _ _ _ _ _)))))))

pub length-read_packet :
    (config : ReadPacketConfig) → length (read_packet config) ≡ get_total_size config
unfolding get_total_size
length-read_packet config = omega (
  arith,
  length-append config.target_space_wire_address (with_crc (read_header config)),
  length-with_crc (read_header config),
  length-append (padded config.reply_address) (
      command_tail config.initiator_logical_address config.transaction_id config.extended_address
        config.address config.data_length),
  length-padded config.reply_address,
)

-- With a reply address of at most 12 bytes, `build` refuses a span shorter than `getTotalSize`, and
-- otherwise returns that size and writes exactly the read command, leaving the rest of the span.
pub build-read_packet :
    (config : ReadPacketConfig) (out : List ℕ)
    → length config.reply_address ≤ 12
    → build config out ≡ (
        if ltb (length out) (get_total_size config)
        then err (ErrorCode.errc Errc.no_buffer_space)
        else ok (get_total_size config, read_packet config ++ drop (get_total_size config) out))
unfolding build put_packet
build-read_packet config out h = elim (Bool-cases (ltb (length out) (get_total_size config))) [
  | inl e ↦ rw e
  | inr e ↦
      rw (e, reply_address_size-eq (length config.reply_address) h)
        (rw (← length-read_packet config) (
          run-eq (Fills-crc _ _ (put_header-Writes config h)) out
            (omega (tests, length-read_packet config))))
]
