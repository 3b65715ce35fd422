-- ===== src/RoundTrip/Write.antt =====
-- Write commands: PacketParser::parse after WritePacketBuilder::build.
use spw_rmap.Base.{
  ℕ, ◌+◌, ◌*◌, ◌^◌, ◌≤◌, ◌<◌, ◌≡◌, refl, ap, ◌∙◌, List, [], ◌∷◌, ◌++◌, true, All, IsByte, length,
  length-append, append_assoc, take, take-append, take_all, drop, drop-append, All-append, some,
  le→ltb, arith,
}
use spw_rmap.Crc.{calc_crc}
use spw_rmap.Rmap.{Packet, PacketType, success, WritePacketConfig, ok}
use spw_rmap.Builder.Layout.{
  reply_words, padded, with_crc, command_tail, length-padded, length-with_crc,
}
use spw_rmap.Builder.Write.{build, get_total_size}
use spw_rmap.Builder.Write.Bytes.{
  write_instruction, write_header, write_packet, build-write_packet, length-write_packet,
}
use spw_rmap.Parser.Fields.Total.{strip_zeros}
use spw_rmap.Parser.Commands.{reply_size}
use spw_rmap.Parser.Commands.Total.{write_result, command_at, write_result-success}
use spw_rmap.Parser.Dispatch.{parse, is_command, is_write}
use spw_rmap.Parser.Dispatch.Path.{IsPath}
use spw_rmap.Parser.Dispatch.Total.{parse_behind_path, dispatch_result}
use spw_rmap.RoundTrip.Command.{
  instruction_bits, command, command_at-command, with_crc-zero, padded-IsByte, command_tail-IsByte,
}

-- The integers have their widths, the data fits the 24 bits of the length, the path is a path, and
-- the logical address is none.
pub record IsSendable (config : WritePacketConfig) : Type 0 where
  pub on_path : IsPath config.target_space_wire_address
  pub behind_path : 0x20 ≤ config.target_logical_address
  pub target : IsByte config.target_logical_address
  pub key : IsByte config.key
  pub reply : All IsByte config.reply_address
  pub reply_fits : length config.reply_address ≤ 12
  pub initiator : IsByte config.initiator_logical_address
  pub id : config.transaction_id < 2 ^ 16
  pub ext : IsByte config.extended_address
  pub address : config.address < 2 ^ 32
  pub payload : All IsByte config.payload
  pub payload_fits : length config.payload < 2 ^ 24

-- The packet that the parser fills in for a write command.
abbrev pub write_fields : WritePacketConfig → Packet → Packet
write_fields config k = record k {
  type = PacketType.write;
  target_space_wire_address = config.target_space_wire_address;
  target_logical_address = config.target_logical_address;
  instruction = write_instruction config;
  key = config.key;
  reply_address = strip_zeros config.reply_address;
  initiator_logical_address = config.initiator_logical_address;
  transaction_id = config.transaction_id;
  extended_address = config.extended_address;
  address = config.address;
  data_length = length config.payload;
  payload = config.payload;
}

module _ (config : WritePacketConfig) (s : IsSendable config) where
  abbrev tail : List ℕ
  tail =
      command_tail config.initiator_logical_address config.transaction_id config.extended_address
        config.address (length config.payload)

  bits :
      (is_command (write_instruction config) ≡ true)
      × (is_write (write_instruction config) ≡ true)
      × (reply_size (write_instruction config) ≡ reply_words config.reply_address * 4)
  bits = ground (arith, s.reply_fits, instruction_bits (write_instruction config))

  header-IsByte : All IsByte (write_header config)
  header-IsByte =
      let fields =
        All-append IsByte (padded config.reply_address) tail
          (padded-IsByte config.reply_address s.reply)
          (command_tail-IsByte _ _ _ _ _ s.initiator s.ext) in
      (s.target, (omega arith, (ground (arith, s.reply_fits), (s.key, fields))))

  abbrev rest : List ℕ
  rest = calc_crc (write_header config) 0 ∷ with_crc config.payload

  as_command :
      with_crc (write_header config) ++ with_crc config.payload
      ≡ command config.target_logical_address
          (write_instruction config)
          config.key
          config.reply_address
          tail
          rest
  as_command =
      append_assoc (write_header config) (calc_crc (write_header config) 0 ∷ [])
        (with_crc config.payload)
      ∙ ap (λ t. config.target_logical_address ∷ 1 ∷ write_instruction config ∷ config.key ∷ t)
          (append_assoc (padded config.reply_address) tail rest)

  abbrev size : ℕ
  size = reply_words config.reply_address * 4

  length-header : length (with_crc (write_header config)) ≡ 16 + size
  length-header = omega (
    arith,
    length-with_crc (write_header config),
    length-append (padded config.reply_address) tail,
    length-padded config.reply_address,
  )

  -- The packet behind its path, and the two blocks that the parser checks.
  abbrev packet : List ℕ
  packet = with_crc (write_header config) ++ with_crc config.payload

  header_block : take (16 + size) packet ≡ with_crc (write_header config)
  header_block =
      rw (← length-header) (take-append (with_crc (write_header config)) (with_crc config.payload))

  data_block : drop (16 + size) packet ≡ with_crc config.payload
  data_block =
      rw (← length-header) (drop-append (with_crc (write_header config)) (with_crc config.payload))

  command_at-packet :
      (k : Packet)
      → command_at packet k ≡ record k {
        target_logical_address = config.target_logical_address;
        instruction = write_instruction config;
        key = config.key;
        reply_address = strip_zeros config.reply_address;
        initiator_logical_address = config.initiator_logical_address;
        transaction_id = config.transaction_id;
        extended_address = config.extended_address;
        address = config.address;
        data_length = length config.payload;
      }
  command_at-packet k = rw as_command (
      command_at-command config.target_logical_address (write_instruction config) config.key
        config.initiator_logical_address config.transaction_id config.extended_address
        config.address (length config.payload) config.reply_address rest k bits.2 s.id s.address
        s.payload_fits)

  write_result-packet :
      (k : Packet)
      → write_result packet k ≡ (success, record (command_at packet k) { payload = config.payload })
  write_result-packet k =
      write_result-success packet k size (length config.payload) bits.2
        (ap (λ (c : Packet). c.data_length) (command_at-packet k))
        (omega (
          arith,
          length-header,
          length-append (with_crc (write_header config)) (with_crc config.payload),
          length-with_crc config.payload,
        ))
        refl (rw header_block (with_crc-zero (write_header config) header-IsByte))
        (rw (data_block, ← length-with_crc config.payload, take_all (with_crc config.payload))
          (with_crc-zero config.payload s.payload))
      ∙ rw (data_block, take-append config.payload)

-- `parse` reads back every field of a write command and its data, the reply address without its
-- leading zeros.
pub parse-write_packet :
    (config : WritePacketConfig) (k : Packet)
    → IsSendable config
    → parse (write_packet config) k ≡ some (success, write_fields config k)
unfolding dispatch_result
parse-write_packet config k s =
    parse_behind_path config.target_space_wire_address _ config.target_logical_address k s.on_path
      s.behind_path
    ∙ ground (arith, bits config s, write_result-packet config s k', command_at-packet config s k')
  where
    k' : Packet
    k' = record k {
      type = PacketType.write;
      instruction = write_instruction config;
      target_space_wire_address = config.target_space_wire_address;
    }

-- Where the integers have the widths of their types, the target address is a path (bytes below 0x20),
-- the target's logical address is 0x20 or more, the reply address has at most 12 bytes and the data
-- fewer than 2^24: given a span of `getTotalSize` bytes at least, `build` succeeds, and what it wrote
-- parses as the command with every field and the data as configured, the reply address without its
-- leading zeros.
pub parse-build_write :
    (config : WritePacketConfig) (out : List ℕ) (k : Packet)
    → IsSendable config
    → get_total_size config ≤ length out
    → (bytes : List ℕ) × (build config out ≡ ok (get_total_size config, bytes))
      × (parse (take (get_total_size config) bytes) k ≡ some (success, write_fields config k))
parse-build_write config out k s room = (
  write_packet config ++ drop (get_total_size config) out,
  build-write_packet config out s.reply_fits ∙ rw (le→ltb _ _ room),
  rw (← length-write_packet config, take-append (write_packet config))
      (parse-write_packet config k s),
)
