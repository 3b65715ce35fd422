-- ===== src/Parser/Dispatch.antt =====
-- PacketParser::parse of src/packet_parser.cc: the path in front of the packet, and the dispatch on
-- the instruction.
pub mod Path
pub mod Total
use spw_rmap.Base.{
  ℕ, zero, suc, ◌+◌, ◌-◌, List, Bool, true, false, Option, none, some, length, ltb, leb, ◌==◌, not,
  bit_and,
}
use spw_rmap.Rmap.{Packet, PacketType, Status, incomplete_packet, RmapCommandCode, command_bits}
use spw_rmap.Parser.Monad.{
  Outcome, fault, returned, M, ◌>>=◌, ◌>>◌, pure, modify, exit_if, or_fault, get_head, at, skip,
  subspan, finish,
}
use spw_rmap.Parser.Commands.{parse_read_packet, parse_write_packet}
use spw_rmap.Parser.Replies.{parse_read_reply_packet, parse_write_reply_packet}

-- `while (packet[head] < 0x20) { ... }`. Each round moves `head` on inside the span, so one round
-- more than the span has bytes is enough.
unfoldable pub skip_path : List ℕ → ℕ → M (Unit {0})
skip_path p zero = λ h k. fault
skip_path p (suc rounds) = do
  head ← get_head
  b ← at p head
  elim (ltb b 0x20) [
    | true ↦ do
      skip 1
      head' ← get_head
      exit_if (leb (length p) head') incomplete_packet
      skip_path p rounds
    | false ↦ pure tt
  ]

-- `return parseX(rest)`
abbrev pub tail_call : (Packet → Option (Status × Packet)) → M (Unit {0})
tail_call f h k = elim (f k) [ none ↦ fault | some (s, k') ↦ returned s k' ]

-- The `switch` on `is_command << 1 | is_write`.
unfoldable pub dispatch : Bool → Bool → List ℕ → List ℕ → M (Unit {0})
dispatch false false path rest = do
  modify (λ k. record k { type = PacketType.read_reply; reply_address = path })
  tail_call (parse_read_reply_packet rest)
dispatch false true path rest = do
  modify (λ k. record k { type = PacketType.write_reply; reply_address = path })
  tail_call (parse_write_reply_packet rest)
dispatch true false path rest = do
  modify (λ k. record k { type = PacketType.read; target_space_wire_address = path })
  tail_call (parse_read_packet rest)
dispatch true true path rest = do
  modify (λ k. record k { type = PacketType.write; target_space_wire_address = path })
  tail_call (parse_write_packet rest)

abbrev pub is_command : ℕ → Bool
is_command instruction = not (bit_and instruction 0b01000000 == 0)

abbrev pub is_write : ℕ → Bool
is_write instruction = not (bit_and instruction (command_bits RmapCommandCode.write) == 0)

unfoldable pub parse_steps : List ℕ → M (Unit {0})
parse_steps p = do
  skip_path p (suc (length p))
  head ← get_head
  exit_if (ltb (length p - head) 4) incomplete_packet
  instruction ← at p (head + 2)
  modify (λ k. record k { instruction = instruction })
  path ← or_fault (subspan p 0 head)
  rest ← or_fault (subspan p head (length p - head))
  dispatch (is_command instruction) (is_write instruction) path rest

unfoldable pub parse : List ℕ → Packet → Option (Status × Packet)
unfolding parse_steps
parse p = finish (parse_steps p)
