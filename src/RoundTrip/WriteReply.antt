-- ===== src/RoundTrip/WriteReply.antt =====
-- Write replies: PacketParser::parse after WriteReplyPacketBuilder::build.
use spw_rmap.Base.{
  ℕ, ◌^◌, ◌≤◌, ◌<◌, ◌≡◌, ◌∙◌, List, ◌++◌, true, false, All, IsByte, length, take, take-append, drop,
  some, le→ltb, arith,
}
use spw_rmap.Rmap.{Packet, PacketType, success, WriteReplyPacketConfig, ok}
use spw_rmap.Builder.WriteReply.{build, get_total_size}
use spw_rmap.Builder.WriteReply.Bytes.{
  write_reply_instruction, write_reply_header, write_reply_packet, build-write_reply_packet,
  length-write_reply_packet,
}
use spw_rmap.Parser.Fields.Numbers.{u16_round}
use spw_rmap.Parser.Dispatch.{parse, is_command, is_write}
use spw_rmap.Parser.Dispatch.Path.{IsPath}
use spw_rmap.Parser.Dispatch.Total.{parse_behind_path, dispatch_result}
use spw_rmap.RoundTrip.Command.{instruction_bits, with_crc-zero}

-- The integers have their widths, the reply address is a path, and the initiator's logical address
-- is none.
pub record IsSendable (config : WriteReplyPacketConfig) : Type 0 where
  pub on_path : IsPath config.reply_address
  pub behind_path : 0x20 ≤ config.initiator_logical_address
  pub initiator : IsByte config.initiator_logical_address
  pub status : IsByte config.status
  pub target : IsByte config.target_logical_address
  pub id : config.transaction_id < 2 ^ 16

-- The packet that the parser fills in for a write reply.
abbrev pub write_reply_fields : WriteReplyPacketConfig → Packet → Packet
write_reply_fields config k = record k {
  type = PacketType.write_reply;
  reply_address = config.reply_address;
  initiator_logical_address = config.initiator_logical_address;
  instruction = write_reply_instruction config;
  status = config.status;
  target_logical_address = config.target_logical_address;
  transaction_id = config.transaction_id;
}

module _ (config : WriteReplyPacketConfig) (s : IsSendable config) where
  bits :
      (is_command (write_reply_instruction config) ≡ false)
      × (is_write (write_reply_instruction config) ≡ true)
  bits = ground (arith, instruction_bits (write_reply_instruction config))

  header-IsByte : All IsByte (write_reply_header config)
  header-IsByte = ground (arith, s.initiator, s.status, s.target)

-- `parse` reads back every field of a write reply.
pub parse-write_reply_packet :
    (config : WriteReplyPacketConfig) (k : Packet)
    → IsSendable config
    → parse (write_reply_packet config) k ≡ some (success, write_reply_fields config k)
unfolding dispatch_result
parse-write_reply_packet config k s =
    parse_behind_path config.reply_address _ config.initiator_logical_address k s.on_path
      s.behind_path
    ∙ ground (
      arith,
      bits config s,
      u16_round config.transaction_id s.id,
      with_crc-zero (write_reply_header config) (header-IsByte config s),
    )

-- Where the integers have the widths of their types, the reply address is a path (bytes below 0x20)
-- and the initiator's logical address is 0x20 or more: given a span of `getTotalSize` bytes at least,
-- `build` succeeds, and what it wrote parses as the reply with every field as configured.
pub parse-build_write_reply :
    (config : WriteReplyPacketConfig) (out : List ℕ) (k : Packet)
    → IsSendable config
    → get_total_size config ≤ length out
    → (bytes : List ℕ) × (build config out ≡ ok (get_total_size config, bytes))
      × (parse (take (get_total_size config) bytes) k ≡ some (success, write_reply_fields config k))
parse-build_write_reply config out k s room = (
  write_reply_packet config ++ drop (get_total_size config) out,
  build-write_reply_packet config out ∙ rw (le→ltb _ _ room),
  rw (← length-write_reply_packet config, take-append (write_reply_packet config))
      (parse-write_reply_packet config k s),
)
