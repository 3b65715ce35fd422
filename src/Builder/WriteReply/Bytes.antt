-- ===== src/Builder/WriteReply/Bytes.antt =====
-- What WriteReplyPacketBuilder::build writes.
use spw_rmap.Base.{
  ℕ, ◌+◌, ◌/◌, ◌%◌, ◌^◌, ◌≡◌, List, [], ◌∷◌, ◌++◌, length, ltb, if◌then◌else◌, drop, length-append,
  tests, arith, Bool-cases, inl, inr,
}
use spw_rmap.Rmap.{WriteReplyPacketConfig, ok, err, Errc, ErrorCode}
use spw_rmap.Builder.Cursor.{
  run-eq, Writes, Writes-cons, Writes->>, Writes-put, Writes-put_all, Fills-crc,
}
use spw_rmap.Builder.Layout.{with_crc, flag}
use spw_rmap.Builder.Command.{low_byte-eq}
use spw_rmap.Builder.WriteReply.{get_total_size, instruction, put_header, put_packet, build}

-- The instruction of a write reply: write, reply, and the mode bits.
abbrev pub write_reply_instruction : WriteReplyPacketConfig → ℕ
write_reply_instruction config = 0x28 + flag config.verify_mode 16 + flag config.increment_mode 4

-- The header of a write reply, without its CRC.
abbrev pub write_reply_header : WriteReplyPacketConfig → List ℕ
write_reply_header config =
    let id = config.transaction_id in
    config.initiator_logical_address
    ∷ 1
    ∷ write_reply_instruction config
    ∷ config.status
    ∷ config.target_logical_address
    ∷ id / 2 ^ 8 % 256
    ∷ id % 256
    ∷ []

abbrev pub write_reply_packet : WriteReplyPacketConfig → List ℕ
write_reply_packet config = config.reply_address ++ with_crc (write_reply_header config)

instruction-eq :
    (config : WriteReplyPacketConfig) → instruction config ≡ write_reply_instruction config
unfolding instruction
instruction-eq config = ground arith

put_header-Writes :
    (config : WriteReplyPacketConfig)
    → Writes (put_header config) (config.reply_address ++ write_reply_header config)
unfolding put_header
put_header-Writes config = Writes->> (Writes-put_all config.reply_address) (
    rw (instruction-eq config, low_byte-eq config.transaction_id)
      (Writes-cons
        (Writes-cons (Writes-cons (Writes-cons (Writes-cons (Writes-cons Writes-put)))))))

pub length-write_reply_packet :
    (config : WriteReplyPacketConfig) → length (write_reply_packet config) ≡ get_total_size config
unfolding get_total_size
length-write_reply_packet config =
    omega (arith, length-append config.reply_address (with_crc (write_reply_header config)))

-- `build` refuses a span shorter than `getTotalSize`, and otherwise returns that size and writes
-- exactly the write reply, leaving the rest of the span.
pub build-write_reply_packet :
    (config : WriteReplyPacketConfig) (out : List ℕ)
    → build config out ≡ (
        if ltb (length out) (get_total_size config)
        then err (ErrorCode.errc Errc.no_buffer_space)
        else ok
            (get_total_size config, write_reply_packet config ++ drop (get_total_size config) out))
unfolding build put_packet
build-write_reply_packet config out = elim (Bool-cases (ltb (length out) (get_total_size config))) [
  | inl e ↦ rw e
  | inr e ↦
      rw (e, ← length-write_reply_packet config)
        (run-eq (Fills-crc _ _ (put_header-Writes config)) out
          (omega (tests, length-write_reply_packet config)))
]
