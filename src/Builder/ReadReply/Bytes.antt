-- ===== src/Builder/ReadReply/Bytes.antt =====
-- What ReadReplyPacketBuilder::build writes.
use spw_rmap.Base.{
  ℕ, ◌+◌, ◌/◌, ◌%◌, ◌^◌, ◌≡◌, List, [], ◌∷◌, ◌++◌, length, append_assoc, ltb, if◌then◌else◌, drop,
  length-append, tests, arith, Bool-cases, inl, inr,
}
use spw_rmap.Rmap.{ReadReplyPacketConfig, ok, err, Errc, ErrorCode}
use spw_rmap.Builder.Cursor.{
  run-eq, Writes, Writes-cons, Writes->>, Writes-put, Writes-put_all, Fills, Fills-crc, Fills->>,
}
use spw_rmap.Builder.Layout.{with_crc, flag, length-with_crc, byte_at-eq}
use spw_rmap.Builder.Command.{low_byte-eq, low_shifted}
use spw_rmap.Builder.ReadReply.{
  get_total_size, instruction, put_header, put_reply, put_packet, build,
}

-- The header of a read reply, without its CRC.
abbrev pub read_reply_header : ReadReplyPacketConfig → List ℕ
read_reply_header config =
    let id = config.transaction_id in
    let len = length config.payload in
    config.initiator_logical_address
    ∷ 1
    ∷ (0x08 + flag config.increment_mode 4)
    ∷ config.status
    ∷ config.target_logical_address
    ∷ id / 2 ^ 8 % 256
    ∷ id % 256
    ∷ 0
    ∷ len / 2 ^ 16 % 256
    ∷ len / 2 ^ 8 % 256
    ∷ len % 256
    ∷ []

abbrev pub read_reply_packet : ReadReplyPacketConfig → List ℕ
read_reply_packet config =
    config.reply_address ++ (with_crc (read_reply_header config) ++ with_crc config.payload)

instruction-eq :
    (config : ReadReplyPacketConfig) → instruction config ≡ 0x08 + flag config.increment_mode 4
unfolding instruction
instruction-eq config = elim (Bool-cases config.increment_mode) [ inl e ↦ rw e | inr e ↦ rw e ]

put_header-Writes :
    (config : ReadReplyPacketConfig)
    → Writes (put_header config) (config.reply_address ++ read_reply_header config)
unfolding put_header
put_header-Writes config = Writes->> (Writes-put_all config.reply_address) (
    rw
      (
        instruction-eq config,
        low_byte-eq config.transaction_id,
        byte_at-eq (length config.payload) 16,
        byte_at-eq (length config.payload) 8,
        low_shifted (length config.payload),
      )
      (Writes-cons (
        Writes-cons (
          Writes-cons (
            Writes-cons (
              Writes-cons (
                Writes-cons
                  (Writes-cons (Writes-cons (Writes-cons (Writes-cons Writes-put)))))))))))

put_packet-Fills :
    (config : ReadReplyPacketConfig) → Fills (put_packet config) (read_reply_packet config)
unfolding put_packet put_reply
put_packet-Fills config =
    rw
      (← append_assoc config.reply_address (with_crc (read_reply_header config))
        (with_crc config.payload))
      (Fills->> (Fills-crc _ _ (put_header-Writes config))
        (Writes->> (Writes-put_all config.payload) Writes-put))

pub length-read_reply_packet :
    (config : ReadReplyPacketConfig) → length (read_reply_packet config) ≡ get_total_size config
unfolding get_total_size
length-read_reply_packet config = omega (
  arith,
  length-append config.reply_address
      (with_crc (read_reply_header config) ++ with_crc config.payload),
  length-append (with_crc (read_reply_header config)) (with_crc config.payload),
  length-with_crc config.payload,
)

-- `build` refuses a span shorter than `getTotalSize`, and otherwise returns that size and writes
-- exactly the read reply with its data, leaving the rest of the span.
pub build-read_reply_packet :
    (config : ReadReplyPacketConfig) (out : List ℕ)
    → build config out ≡ (
        if ltb (length out) (get_total_size config)
        then err (ErrorCode.errc Errc.no_buffer_space)
        else ok
            (get_total_size config, read_reply_packet config ++ drop (get_total_size config) out))
unfolding build
build-read_reply_packet config out = elim (Bool-cases (ltb (length out) (get_total_size config))) [
  | inl e ↦ rw e
  | inr e ↦
      rw (e, ← length-read_reply_packet config)
        (run-eq (put_packet-Fills config) out (omega (tests, length-read_reply_packet config)))
]
