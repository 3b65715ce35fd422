-- ===== src/Parser/Replies.antt =====
-- parseReadReplyPacket and parseWriteReplyPacket of src/packet_parser.cc.
pub mod Total
use spw_rmap.Base.{ℕ, ◌+◌, List, Option, length, ltb, ◌==◌, not}
use spw_rmap.Crc.{calc_crc}
use spw_rmap.Rmap.{
  Packet, Status, incomplete_packet, header_crc_error, data_crc_error, unknown_protocol_identifier,
}
use spw_rmap.Parser.Monad.{
  M, ◌>>=◌, ◌>>◌, modify, exit_if, or_fault, get_head, next, skip, subspan, finish,
}
use spw_rmap.Parser.Fields.{or_shifted}

-- The fields that both replies begin with, behind the header's CRC check.
unfoldable pub read_reply_head : List ℕ → M (Unit {0})
read_reply_head p = do
  initiator ← next p
  modify (λ k. record k { initiator_logical_address = initiator })
  protocol ← next p
  exit_if (not (protocol == 0x01)) unknown_protocol_identifier
  instruction ← next p
  modify (λ k. record k { instruction = instruction })
  status ← next p
  modify (λ k. record k { status = status })
  target ← next p
  modify (λ k. record k { target_logical_address = target; transaction_id = 0 })
  i1 ← next p
  modify (λ k. record k { transaction_id = or_shifted 16 k.transaction_id i1 8 })
  i0 ← next p
  modify (λ k. record k { transaction_id = or_shifted 16 k.transaction_id i0 0 })

-- The reserved byte and the data length of a read reply.
unfoldable pub read_reply_length : List ℕ → M (Unit {0})
read_reply_length p = do
  skip 1
  modify (λ k. record k { data_length = 0 })
  l2 ← next p
  modify (λ k. record k { data_length = or_shifted 32 k.data_length l2 16 })
  l1 ← next p
  modify (λ k. record k { data_length = or_shifted 32 k.data_length l1 8 })
  l0 ← next p
  modify (λ k. record k { data_length = or_shifted 32 k.data_length l0 0 })

-- The data of a read reply, with the packet's `data_length`.
unfoldable pub read_reply_data : List ℕ → M (Unit {0})
read_reply_data p h k =
    (do
      exit_if (not (length p == 12 + k.data_length + 1)) incomplete_packet
      block ← or_fault (subspan p 12 (k.data_length + 1))
      exit_if (not (calc_crc block 0x00 == 0x00)) data_crc_error
      skip 1
      head ← get_head
      payload ← or_fault (subspan p head k.data_length)
      modify (λ k'. record k' { payload = payload }))
      h k

unfoldable pub read_reply_steps : List ℕ → M (Unit {0})
read_reply_steps p = do
  exit_if (ltb (length p) 12) incomplete_packet
  header ← or_fault (subspan p 0 12)
  exit_if (not (calc_crc header 0x00 == 0x00)) header_crc_error
  read_reply_head p
  read_reply_length p
  read_reply_data p

unfoldable pub parse_read_reply_packet : List ℕ → Packet → Option (Status × Packet)
unfolding read_reply_steps
parse_read_reply_packet p = finish (read_reply_steps p)

unfoldable pub write_reply_steps : List ℕ → M (Unit {0})
write_reply_steps p = do
  exit_if (not (length p == 8)) incomplete_packet
  header ← or_fault (subspan p 0 8)
  exit_if (not (calc_crc header 0x00 == 0x00)) header_crc_error
  read_reply_head p

unfoldable pub parse_write_reply_packet : List ℕ → Packet → Option (Status × Packet)
unfolding write_reply_steps
parse_write_reply_packet p = finish (write_reply_steps p)
