-- ===== src/Parser/Tests.antt =====
-- The parser at concrete spans.
use spw_rmap.Base.{ℕ, ◌≡◌, ◌≢◌, ◌↔◌, refl, List, [], ◌∷◌, ◌++◌, some, none, arith}
use spw_rmap.Rmap.{success, empty_packet, Packet}
use spw_rmap.Crc.{calc_crc}
use spw_rmap.Parser.Commands.{parse_read_packet}
use spw_rmap.Parser.Fields.Total.{strip_zeros}
use spw_rmap.Parser.Commands.Corrupt.{parse_read_packet-one_byte}
use spw_rmap.Parser.Commands.Total.{parse_read_packet-eq}
use spw_rmap.Parser.Dispatch.{parse}
use spw_rmap.Parser.Dispatch.Total.{parse-none_iff}

-- A read command with no reply address, with and its CRC: the transaction's low byte
-- stands between the two parts.
abbrev front : List ℕ
front = 0x34 ∷ 0x01 ∷ 0x4c ∷ 0x00 ∷ 0xfe ∷ 0x00 ∷ []

abbrev back : List ℕ
back = 0x00 ∷ 0x20 ∷ 0x00 ∷ 0x00 ∷ 0x10 ∷ 0x00 ∷ 0x00 ∷ 0x04 ∷ 0x2 ∷ []

crc_of_read : calc_crc (front ++ 0x21 ∷ back) 0 ≡ 0x00
unfolding calc_crc
crc_of_read = refl

parse-none_iff_example :
    (parse (3 ∷ 5 ∷ []) empty_packet ≡ none) ↔ (◌≡◌ {A = List ℕ} (3 ∷ 5 ∷ []) [])
parse-none_iff_example = parse-none_iff (3 ∷ 5 ∷ []) empty_packet

abbrev accepted : Packet
accepted = record empty_packet {
  target_logical_address = 0x34;
  instruction = 0x4c;
  initiator_logical_address = 0xfe;
  transaction_id = 0x21;
  address = 0x20000010;
  data_length = 4;
}

accepted_lem : parse_read_packet (front ++ 0x21 ∷ back) empty_packet ≡ some (success, accepted)
unfolding calc_crc strip_zeros
accepted_lem = parse_read_packet-eq (front ++ 0x21 ∷ back) empty_packet

parse_read_packet-one_byte_example :
    parse_read_packet (front ++ 0x22 ∷ back) empty_packet
    ≢ some (success, record accepted { transaction_id = 0x22 })
parse_read_packet-one_byte_example =
    parse_read_packet-one_byte front back 0x21 0x22 empty_packet empty_packet accepted
      (record accepted { transaction_id = 0x22 }) (omega arith) (omega arith) (omega arith)
      (omega arith) (omega arith) accepted_lem
