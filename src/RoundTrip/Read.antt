-- ===== src/RoundTrip/Read.antt =====
-- Read commands: PacketParser::parse after ReadPacketBuilder::build.
use spw_rmap.Base.{
  ℕ, ◌*◌, ◌^◌, ◌≤◌, ◌<◌, ◌≡◌, ap, ◌∙◌, List, [], ◌∷◌, ◌++◌, true, false, All, IsByte, length,
  length-append, append_assoc, take, take-append, take_all, drop, All-append, some, le→ltb, arith,
}
use spw_rmap.Crc.{calc_crc}
use spw_rmap.Rmap.{Packet, PacketType, success, ReadPacketConfig, ok}
use spw_rmap.Builder.Layout.{reply_words, padded, with_crc, command_tail, length-padded}
use spw_rmap.Builder.Read.{build, get_total_size}
use spw_rmap.Builder.Read.Bytes.{
  read_instruction, read_header, read_packet, build-read_packet, length-read_packet,
}
use spw_rmap.Parser.Fields.Total.{strip_zeros}
use spw_rmap.Parser.Commands.{reply_size}
use spw_rmap.Parser.Commands.Total.{read_result, command_at}
use spw_rmap.Parser.Dispatch.{parse, is_command, is_write}
use spw_rmap.Parser.Dispatch.Path.{IsPath}
use spw_rmap.Parser.Dispatch.Total.{parse_behind_path, dispatch_result}
use spw_rmap.RoundTrip.Command.{
  instruction_bits, command, command_at-command, with_crc-zero, padded-IsByte, command_tail-IsByte,
}

-- The integers have their widths, the length its 24 bits on the wire, the path is a path, and the
-- logical address is none.
pub record IsSendable (config : ReadPacketConfig) : Type 0 where
  pub on_path : IsPath config.target_space_wire_address
  pub behind_path : 0x20 ≤ config.target_logical_address
  pub target : IsByte config.target_logical_address
  pub key : IsByte config.key
  pub reply : All IsByte config.reply_address
  pub reply_fits : length config.reply_address ≤ 12
  pub initiator : IsByte config.initiator_logical_address
  pub id : config.transaction_id < 2 ^ 16
  pub ext : IsByte config.extended_address
  pub address : config.address < 2 ^ 32
  pub data_length : config.data_length < 2 ^ 24

-- The packet that the parser fills in for a read command.
abbrev pub read_fields : ReadPacketConfig → Packet → Packet
read_fields config k = record k {
  type = PacketType.read;
  target_space_wire_address = config.target_space_wire_address;
  target_logical_address = config.target_logical_address;
  instruction = read_instruction config;
  key = config.key;
  reply_address = strip_zeros config.reply_address;
  initiator_logical_address = config.initiator_logical_address;
  transaction_id = config.transaction_id;
  extended_address = config.extended_address;
  address = config.address;
  data_length = config.data_length;
}

module _ (config : ReadPacketConfig) (s : IsSendable config) where
  abbrev tail : List ℕ
  tail =
      command_tail config.initiator_logical_address config.transaction_id config.extended_address
        config.address config.data_length

  bits :
      (is_command (read_instruction config) ≡ true)
      × (is_write (read_instruction config) ≡ false)
      × (reply_size (read_instruction config) ≡ reply_words config.reply_address * 4)
  bits = ground (arith, s.reply_fits, instruction_bits (read_instruction config))

  header-IsByte : All IsByte (read_header config)
  header-IsByte = (
    s.target,
    (
      omega arith,
      (
        ground (arith, s.reply_fits),
        (
          s.key,
          All-append IsByte (padded config.reply_address) tail
              (padded-IsByte config.reply_address s.reply)
              (command_tail-IsByte _ _ _ _ _ s.initiator s.ext),
        ),
      ),
    ),
  )

  as_command :
      with_crc (read_header config)
      ≡ command config.target_logical_address
          (read_instruction config)
          config.key
          config.reply_address
          tail
          (calc_crc (read_header config) 0 ∷ [])
  as_command =
      ap (λ t. config.target_logical_address ∷ 1 ∷ read_instruction config ∷ config.key ∷ t)
        (append_assoc (padded config.reply_address) tail (calc_crc (read_header config) 0 ∷ []))

  read_result-with_crc :
      (k : Packet)
      → read_result (with_crc (read_header config)) k
        ≡ (success, command_at (with_crc (read_header config)) k)
  read_result-with_crc k = ground (
    arith,
    bits,
    with_crc-zero (read_header config) header-IsByte,
    take_all (with_crc (read_header config)),
    length-append (padded config.reply_address ++ tail) (calc_crc (read_header config) 0 ∷ []),
    length-append (padded config.reply_address) tail,
    length-padded config.reply_address,
  )

-- `parse` reads back every field of a read command, the reply address without its leading zeros.
pub parse-read_packet :
    (config : ReadPacketConfig) (k : Packet)
    → IsSendable config
    → parse (read_packet config) k ≡ some (success, read_fields config k)
unfolding dispatch_result
parse-read_packet config k s =
    parse_behind_path config.target_space_wire_address _ config.target_logical_address k s.on_path
      s.behind_path
    ∙ ground (
      arith,
      bits config s,
      read_result-with_crc config s k',
      as_command config s,
      command_at-command config.target_logical_address (read_instruction config) config.key
          config.initiator_logical_address config.transaction_id config.extended_address
          config.address config.data_length config.reply_address
          (calc_crc (read_header config) 0 ∷ []) k' (bits config s).2 s.id s.address s.data_length,
    )
  where
    k' : Packet
    k' = record k {
      type = PacketType.read;
      instruction = read_instruction config;
      target_space_wire_address = config.target_space_wire_address;
    }

-- Where the integers have the widths of their types, the target address is a path (bytes below 0x20),
-- the target's logical address is 0x20 or more, the reply address has at most 12 bytes and the data
-- length is below 2^24: given a span of `getTotalSize` bytes at least, `build` succeeds, and what it
-- wrote parses as the command with every field as configured, the reply address without its leading
-- zeros.
pub parse-build_read :
    (config : ReadPacketConfig) (out : List ℕ) (k : Packet)
    → IsSendable config
    → get_total_size config ≤ length out
    → (bytes : List ℕ) × (build config out ≡ ok (get_total_size config, bytes))
      × (parse (take (get_total_size config) bytes) k ≡ some (success, read_fields config k))
parse-build_read config out k s room = (
  read_packet config ++ drop (get_total_size config) out,
  build-read_packet config out s.reply_fits ∙ rw (le→ltb _ _ room),
  rw (← length-read_packet config, take-append (read_packet config)) (parse-read_packet config k s),
)
