-- ===== src/Parser/Commands.antt =====
-- parseReadPacket and parseWritePacket of src/packet_parser.cc.
pub mod Total
pub mod Corrupt
use spw_rmap.Base.{ℕ, ◌+◌, ◌*◌, List, Option, length, ltb, leb, ◌==◌, not, bit_and}
use spw_rmap.Crc.{calc_crc}
use spw_rmap.Rmap.{
  Packet, Status, incomplete_packet, header_crc_error, data_crc_error, unknown_protocol_identifier,
}
use spw_rmap.Parser.Monad.{
  M, ◌>>=◌, ◌>>◌, modify, exit_if, or_fault, get_head, at, next, skip, subspan, finish,
}
use spw_rmap.Parser.Fields.{read_reply_address, read_command_tail}

-- `static_cast<size_t>(instruction & 0b00000011) * 4`
abbrev pub reply_size : ℕ → ℕ
reply_size instruction = bit_and instruction 0b00000011 * 4

-- The first four bytes, behind the header's CRC check.
unfoldable pub read_command_head : List ℕ → M (Unit {0})
read_command_head p = do
  target ← next p
  modify (λ k. record k { target_logical_address = target })
  protocol ← next p
  exit_if (not (protocol == 0x01)) unknown_protocol_identifier
  instruction ← next p
  modify (λ k. record k { instruction = instruction })
  key ← next p
  modify (λ k. record k { key = key })

unfoldable pub read_steps : List ℕ → M (Unit {0})
read_steps p = do
  exit_if (ltb (length p) 4) incomplete_packet
  instruction ← at p 2
  exit_if (not (length p == 16 + reply_size instruction)) incomplete_packet
  header ← or_fault (subspan p 0 (16 + reply_size instruction))
  exit_if (not (calc_crc header 0x00 == 0x00)) header_crc_error
  read_command_head p
  read_reply_address p (reply_size instruction)
  read_command_tail p

unfoldable pub parse_read_packet : List ℕ → Packet → Option (Status × Packet)
unfolding read_steps
parse_read_packet p = finish (read_steps p)

-- The data behind a header of `from` bytes, with the packet's `data_length`.
unfoldable pub read_data : List ℕ → ℕ → M (Unit {0})
read_data p from h k =
    (do
      exit_if (not (length p == from + k.data_length + 1)) incomplete_packet
      block ← or_fault (subspan p from (k.data_length + 1))
      exit_if (not (calc_crc block 0x00 == 0x00)) data_crc_error
      skip 1
      head ← get_head
      payload ← or_fault (subspan p head k.data_length)
      modify (λ k'. record k' { payload = payload }))
      h k

unfoldable pub write_steps : List ℕ → M (Unit {0})
write_steps p = do
  exit_if (ltb (length p) 4) incomplete_packet
  instruction ← at p 2
  exit_if (leb (length p) (16 + reply_size instruction)) incomplete_packet
  header ← or_fault (subspan p 0 (16 + reply_size instruction))
  exit_if (not (calc_crc header 0x00 == 0x00)) header_crc_error
  read_command_head p
  read_reply_address p (reply_size instruction)
  read_command_tail p
  read_data p (16 + reply_size instruction)

unfoldable pub parse_write_packet : List ℕ → Packet → Option (Status × Packet)
unfolding write_steps
parse_write_packet p = finish (write_steps p)
