-- ===== src/Parser/Commands/Total.antt =====
-- parseReadPacket and parseWritePacket on any span: they never read outside it, and what they
-- return.
use spw_rmap.Base.{
  ℕ, ◌+◌, ◌≤◌, ◌≡◌, List, some, length, take, drop, ltb, leb, ◌==◌, if◌then◌else◌, not, arith,
}
use spw_rmap.Crc.{calc_crc}
use spw_rmap.Rmap.{
  Packet, Status, success, incomplete_packet, header_crc_error, data_crc_error,
  unknown_protocol_identifier,
}
use spw_rmap.Parser.Monad.{go, returned, byte_at, get_elem?-byte_at}
use spw_rmap.Parser.Fields.Total.{tail_at, strip_zeros, read_reply_address-eq, read_command_tail-eq}
use spw_rmap.Parser.Commands.{
  reply_size, read_command_head, parse_read_packet, read_data, parse_write_packet,
}

-- The packet behind the four bytes of the head, the reply address and the fields.
abbrev pub command_at : List ℕ → Packet → Packet
command_at p k =
    let size = reply_size (byte_at p 2) in
    tail_at p (4 + size) (record k {
      target_logical_address = byte_at p 0;
      instruction = byte_at p 2;
      key = byte_at p 3;
      reply_address = strip_zeros (take size (drop 4 p));
    })

read_command_head-eq :
    (p : List ℕ) (k : Packet)
    → 4 ≤ length p
    → read_command_head p 0 k ≡ (
        if byte_at p 1 == 1
        then go tt 4 (record k {
          target_logical_address = byte_at p 0;
          instruction = byte_at p 2;
          key = byte_at p 3;
        })
        else returned unknown_protocol_identifier
            (record k { target_logical_address = byte_at p 0 }))
unfolding read_command_head
read_command_head-eq p k e = ground (
  arith,
  get_elem?-byte_at p 0,
  get_elem?-byte_at p 1,
  get_elem?-byte_at p 2,
  get_elem?-byte_at p 3,
)

-- What parseReadPacket returns on each span.
abbrev pub read_result : List ℕ → Packet → Status × Packet
read_result p k =
    let size = reply_size (byte_at p 2) in
    if ltb (length p) 4
    then (incomplete_packet, k)
    else if not (length p == 16 + size)
    then (incomplete_packet, k)
    else if not (calc_crc (take (16 + size) p) 0 == 0)
    then (header_crc_error, k)
    else if not (byte_at p 1 == 1)
    then (unknown_protocol_identifier, record k { target_logical_address = byte_at p 0 })
    else (success, command_at p k)

pub parse_read_packet-eq :
    (p : List ℕ) (k : Packet) → parse_read_packet p k ≡ some (read_result p k)
unfolding parse_read_packet
parse_read_packet-eq p k = ground (
  arith,
  get_elem?-byte_at p 2,
  read_command_head-eq p k,
  read_reply_address-eq p (reply_size (byte_at p 2)) 4 (record k {
    target_logical_address = byte_at p 0;
    instruction = byte_at p 2;
    key = byte_at p 3;
  }),
  read_command_tail-eq p (4 + reply_size (byte_at p 2)) (record k {
    target_logical_address = byte_at p 0;
    instruction = byte_at p 2;
    key = byte_at p 3;
    reply_address = strip_zeros (take (reply_size (byte_at p 2)) (drop 4 p));
  }),
)

-- The end of parseWritePacket behind a header of `from` bytes, with `head` one byte before its end.
read_data-eq :
    (p : List ℕ) (from head : ℕ) (k : Packet)
    → from ≡ head + 1
    → read_data p from head k ≡ (
        if not (length p == from + k.data_length + 1)
        then returned incomplete_packet k
        else if not (calc_crc (take (k.data_length + 1) (drop from p)) 0 == 0)
        then returned data_crc_error k
        else go tt from (record k { payload = take k.data_length (drop from p) }))
unfolding read_data
read_data-eq p from head k e = ground arith

-- What parseWritePacket returns on each span.
abbrev pub write_result : List ℕ → Packet → Status × Packet
write_result p k =
    let size = reply_size (byte_at p 2) in
    let c = command_at p k in
    if ltb (length p) 4
    then (incomplete_packet, k)
    else if leb (length p) (16 + size)
    then (incomplete_packet, k)
    else if not (calc_crc (take (16 + size) p) 0 == 0)
    then (header_crc_error, k)
    else if not (byte_at p 1 == 1)
    then (unknown_protocol_identifier, record k { target_logical_address = byte_at p 0 })
    else if not (length p == 16 + size + c.data_length + 1)
    then (incomplete_packet, c)
    else if not (calc_crc (take (c.data_length + 1) (drop (16 + size) p)) 0 == 0)
    then (data_crc_error, c)
    else (success, record c { payload = take c.data_length (drop (16 + size) p) })

pub parse_write_packet-eq :
    (p : List ℕ) (k : Packet) → parse_write_packet p k ≡ some (write_result p k)
unfolding parse_write_packet
parse_write_packet-eq p k = ground (
  arith,
  get_elem?-byte_at p 2,
  read_command_head-eq p k,
  read_reply_address-eq p (reply_size (byte_at p 2)) 4 (record k {
    target_logical_address = byte_at p 0;
    instruction = byte_at p 2;
    key = byte_at p 3;
  }),
  read_command_tail-eq p (4 + reply_size (byte_at p 2)) (record k {
    target_logical_address = byte_at p 0;
    instruction = byte_at p 2;
    key = byte_at p 3;
    reply_address = strip_zeros (take (reply_size (byte_at p 2)) (drop 4 p));
  }),
  read_data-eq p (16 + reply_size (byte_at p 2)) (15 + reply_size (byte_at p 2)) (command_at p k),
)

-- A write command of `len` data bytes, accepted.
pub write_result-success :
    (p : List ℕ) (k : Packet) (size len : ℕ)
    → reply_size (byte_at p 2) ≡ size
    → (command_at p k).data_length ≡ len
    → length p ≡ 16 + size + len + 1
    → byte_at p 1 ≡ 1
    → calc_crc (take (16 + size) p) 0 ≡ 0
    → calc_crc (take (len + 1) (drop (16 + size) p)) 0 ≡ 0
    → write_result p k
      ≡ (success, record (command_at p k) { payload = take len (drop (16 + size) p) })
write_result-success p k size len hs hl total one head rest = ground arith
