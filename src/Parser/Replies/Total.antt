-- ===== src/Parser/Replies/Total.antt =====
-- parseReadReplyPacket and parseWriteReplyPacket on any span: they never read outside it, and what
-- they return.
use spw_rmap.Base.{
  ℕ, ◌+◌, ◌≤◌, ◌≡◌, List, some, length, take, drop, ltb, ◌==◌, if◌then◌else◌, not, arith,
}
use spw_rmap.Crc.{calc_crc}
use spw_rmap.Rmap.{
  Packet, Status, success, incomplete_packet, header_crc_error, data_crc_error,
  unknown_protocol_identifier,
}
use spw_rmap.Parser.Monad.{go, returned, byte_at, get_elem?-byte_at}
use spw_rmap.Parser.Fields.{or_shifted}
use spw_rmap.Parser.Fields.Numbers.{be24}
use spw_rmap.Parser.Replies.{
  read_reply_head, read_reply_length, read_reply_data, parse_read_reply_packet,
  parse_write_reply_packet,
}

abbrev pub reply_at : List ℕ → Packet → Packet
reply_at p k = record k {
  initiator_logical_address = byte_at p 0;
  instruction = byte_at p 2;
  status = byte_at p 3;
  target_logical_address = byte_at p 4;
  transaction_id = or_shifted 16 (or_shifted 16 0 (byte_at p 5) 8) (byte_at p 6) 0;
}

read_reply_head-eq :
    (p : List ℕ) (k : Packet)
    → 7 ≤ length p
    → read_reply_head p 0 k ≡ (
        if byte_at p 1 == 1
        then go tt 7 (reply_at p k)
        else returned unknown_protocol_identifier
            (record k { initiator_logical_address = byte_at p 0 }))
unfolding read_reply_head
read_reply_head-eq p k e = ground (
  arith,
  get_elem?-byte_at p 0,
  get_elem?-byte_at p 1,
  get_elem?-byte_at p 2,
  get_elem?-byte_at p 3,
  get_elem?-byte_at p 4,
  get_elem?-byte_at p 5,
  get_elem?-byte_at p 6,
)

-- What parseWriteReplyPacket returns on each span.
abbrev pub write_reply_result : List ℕ → Packet → Status × Packet
write_reply_result p k =
    if not (length p == 8)
    then (incomplete_packet, k)
    else if not (calc_crc (take 8 p) 0 == 0)
    then (header_crc_error, k)
    else if not (byte_at p 1 == 1)
    then (unknown_protocol_identifier, record k { initiator_logical_address = byte_at p 0 })
    else (success, reply_at p k)

pub parse_write_reply_packet-eq :
    (p : List ℕ) (k : Packet) → parse_write_reply_packet p k ≡ some (write_reply_result p k)
unfolding parse_write_reply_packet
parse_write_reply_packet-eq p k = ground (arith, read_reply_head-eq p k)

abbrev pub read_reply_at : List ℕ → Packet → Packet
read_reply_at p k = record (reply_at p k) {
  data_length = be24 (byte_at p 8) (byte_at p 9) (byte_at p 10);
}

read_reply_length-eq :
    (p : List ℕ) (k : Packet)
    → 12 ≤ length p
    → read_reply_length p 7 k
      ≡ go tt 11 (record k { data_length = be24 (byte_at p 8) (byte_at p 9) (byte_at p 10) })
unfolding read_reply_length
read_reply_length-eq p k e =
    ground (arith, get_elem?-byte_at p 8, get_elem?-byte_at p 9, get_elem?-byte_at p 10)

read_reply_data-eq :
    (p : List ℕ) (k : Packet)
    → read_reply_data p 11 k ≡ (
        if not (length p == 12 + k.data_length + 1)
        then returned incomplete_packet k
        else if not (calc_crc (take (k.data_length + 1) (drop 12 p)) 0 == 0)
        then returned data_crc_error k
        else go tt 12 (record k { payload = take k.data_length (drop 12 p) }))
unfolding read_reply_data
read_reply_data-eq p k = ground arith

-- What parseReadReplyPacket returns on each span.
abbrev pub read_reply_result : List ℕ → Packet → Status × Packet
read_reply_result p k =
    let r = read_reply_at p k in
    if ltb (length p) 12
    then (incomplete_packet, k)
    else if not (calc_crc (take 12 p) 0 == 0)
    then (header_crc_error, k)
    else if not (byte_at p 1 == 1)
    then (unknown_protocol_identifier, record k { initiator_logical_address = byte_at p 0 })
    else if not (length p == 12 + r.data_length + 1)
    then (incomplete_packet, r)
    else if not (calc_crc (take (r.data_length + 1) (drop 12 p)) 0 == 0)
    then (data_crc_error, r)
    else (success, record r { payload = take r.data_length (drop 12 p) })

pub parse_read_reply_packet-eq :
    (p : List ℕ) (k : Packet) → parse_read_reply_packet p k ≡ some (read_reply_result p k)
unfolding parse_read_reply_packet
parse_read_reply_packet-eq p k = ground (
  arith,
  read_reply_head-eq p k,
  read_reply_length-eq p (reply_at p k),
  read_reply_data-eq p (read_reply_at p k),
)

-- A read reply of `len` data bytes, accepted.
pub read_reply_result-success :
    (p : List ℕ) (k : Packet) (len : ℕ)
    → (read_reply_at p k).data_length ≡ len
    → length p ≡ 12 + len + 1
    → byte_at p 1 ≡ 1
    → calc_crc (take 12 p) 0 ≡ 0
    → calc_crc (take (len + 1) (drop 12 p)) 0 ≡ 0
    → read_reply_result p k
      ≡ (success, record (read_reply_at p k) { payload = take len (drop 12 p) })
read_reply_result-success p k len hl total one head rest = ground arith
