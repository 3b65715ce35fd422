-- ===== src/RoundTrip/ReadReply.antt =====
-- Read replies: PacketParser::parse after ReadReplyPacketBuilder::build.
use spw_rmap.Base.{
  ℕ, ◌+◌, ◌^◌, ◌≤◌, ◌<◌, ◌≡◌, refl, ◌∙◌, List, ◌++◌, false, All, IsByte, length, take, take-append,
  take_all, drop, some, le→ltb, arith,
}
use spw_rmap.Crc.{calc_crc}
use spw_rmap.Rmap.{Packet, PacketType, success, ReadReplyPacketConfig, ok}
use spw_rmap.Builder.Layout.{with_crc, flag, length-with_crc}
use spw_rmap.Builder.ReadReply.{build, get_total_size}
use spw_rmap.Builder.ReadReply.Bytes.{
  read_reply_header, read_reply_packet, build-read_reply_packet, length-read_reply_packet,
}
use spw_rmap.Parser.Fields.Numbers.{u16_round, u24_round}
use spw_rmap.Parser.Replies.Total.{read_reply_result, read_reply_result-success}
use spw_rmap.Parser.Dispatch.{parse, is_command, is_write}
use spw_rmap.Parser.Dispatch.Path.{IsPath}
use spw_rmap.Parser.Dispatch.Total.{parse_behind_path, dispatch_result}
use spw_rmap.RoundTrip.Command.{instruction_bits, with_crc-zero}

-- The integers have their widths, the data fits the 24 bits of the length, the reply address is a
-- path, and the initiator's logical address is none.
pub record IsSendable (config : ReadReplyPacketConfig) : Type 0 where
  pub on_path : IsPath config.reply_address
  pub behind_path : 0x20 ≤ config.initiator_logical_address
  pub initiator : IsByte config.initiator_logical_address
  pub status : IsByte config.status
  pub target : IsByte config.target_logical_address
  pub id : config.transaction_id < 2 ^ 16
  pub payload : All IsByte config.payload
  pub payload_fits : length config.payload < 2 ^ 24

-- The packet that the parser fills in for a read reply.
abbrev pub read_reply_fields : ReadReplyPacketConfig → Packet → Packet
read_reply_fields config k = record k {
  type = PacketType.read_reply;
  reply_address = config.reply_address;
  initiator_logical_address = config.initiator_logical_address;
  instruction = 0x08 + flag config.increment_mode 4;
  status = config.status;
  target_logical_address = config.target_logical_address;
  transaction_id = config.transaction_id;
  data_length = length config.payload;
  payload = config.payload;
}

module _ (config : ReadReplyPacketConfig) (s : IsSendable config) where
  abbrev packet : List ℕ
  packet = with_crc (read_reply_header config) ++ with_crc config.payload

  bits :
      (is_command (0x08 + flag config.increment_mode 4) ≡ false)
      × (is_write (0x08 + flag config.increment_mode 4) ≡ false)
  bits = ground (arith, instruction_bits (0x08 + flag config.increment_mode 4))

  header-IsByte : All IsByte (read_reply_header config)
  header-IsByte = ground (arith, s.initiator, s.status, s.target)

  data_crc : calc_crc (take (length config.payload + 1) (with_crc config.payload)) 0 ≡ 0
  data_crc =
      rw (← length-with_crc config.payload, take_all (with_crc config.payload))
        (with_crc-zero config.payload s.payload)

  read_reply_result-packet :
      (k : Packet)
      → read_reply_result packet k ≡ (
        success,
        record k {
          initiator_logical_address = config.initiator_logical_address;
          instruction = 0x08 + flag config.increment_mode 4;
          status = config.status;
          target_logical_address = config.target_logical_address;
          transaction_id = config.transaction_id;
          data_length = length config.payload;
          payload = config.payload;
        },
      )
  read_reply_result-packet k =
      read_reply_result-success packet k (length config.payload)
        (u24_round (length config.payload) s.payload_fits)
        (omega (arith, length-with_crc config.payload)) refl
        (with_crc-zero (read_reply_header config) header-IsByte) data_crc
      ∙ rw (
        u16_round config.transaction_id s.id,
        u24_round (length config.payload) s.payload_fits,
        take-append config.payload,
      )

-- `parse` reads back every field of a read reply and its data.
pub parse-read_reply_packet :
    (config : ReadReplyPacketConfig) (k : Packet)
    → IsSendable config
    → parse (read_reply_packet config) k ≡ some (success, read_reply_fields config k)
unfolding dispatch_result
parse-read_reply_packet config k s =
    parse_behind_path config.reply_address _ config.initiator_logical_address k s.on_path
      s.behind_path
    ∙ ground (arith, bits config s, read_reply_result-packet config s k')
  where
    k' : Packet
    k' = record k {
      type = PacketType.read_reply;
      instruction = 0x08 + flag config.increment_mode 4;
      reply_address = config.reply_address;
    }

-- Where the integers have the widths of their types, the reply address is a path (bytes below 0x20),
-- the initiator's logical address is 0x20 or more and the data has fewer than 2^24 bytes: given a span
-- of `getTotalSize` bytes at least, `build` succeeds, and what it wrote parses as the reply with every
-- field and the data as configured.
pub parse-build_read_reply :
    (config : ReadReplyPacketConfig) (out : List ℕ) (k : Packet)
    → IsSendable config
    → get_total_size config ≤ length out
    → (bytes : List ℕ) × (build config out ≡ ok (get_total_size config, bytes))
      × (parse (take (get_total_size config) bytes) k ≡ some (success, read_reply_fields config k))
parse-build_read_reply config out k s room = (
  read_reply_packet config ++ drop (get_total_size config) out,
  build-read_reply_packet config out ∙ rw (le→ltb _ _ room),
  rw (← length-read_reply_packet config, take-append (read_reply_packet config))
      (parse-read_reply_packet config k s),
)
