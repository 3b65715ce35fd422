-- ===== src/RoundTrip/Tests.antt =====
-- The round trips at concrete configurations.
use spw_rmap.Base.{ℕ, ◌≡◌, List, some, take, arith}
use spw_rmap.Rmap.{ok, success, empty_packet}
use spw_rmap.Builder.Samples.{
  read_config, write_config, read_reply_config, write_reply_config, span,
}
use spw_rmap.Builder.Read
use spw_rmap.Builder.Write
use spw_rmap.Builder.ReadReply
use spw_rmap.Builder.WriteReply
use spw_rmap.Parser.Dispatch.{parse}
use spw_rmap.RoundTrip.Read.{parse-build_read, read_fields}
use spw_rmap.RoundTrip.Write.{parse-build_write, write_fields}
use spw_rmap.RoundTrip.ReadReply.{parse-build_read_reply, read_reply_fields}
use spw_rmap.RoundTrip.WriteReply.{parse-build_write_reply, write_reply_fields}

parse-build_read_example :
    (bytes : List ℕ) × (Read.build read_config span ≡ ok (Read.get_total_size read_config, bytes))
    × (parse (take (Read.get_total_size read_config) bytes) empty_packet
        ≡ some (success, read_fields read_config empty_packet))
unfolding Read.get_total_size
parse-build_read_example =
    parse-build_read read_config span empty_packet (omega arith) (omega arith)

parse-build_write_example :
    (bytes : List ℕ) × (Write.build write_config span
      ≡ ok (Write.get_total_size write_config, bytes))
    × (parse (take (Write.get_total_size write_config) bytes) empty_packet
        ≡ some (success, write_fields write_config empty_packet))
unfolding Write.get_total_size
parse-build_write_example =
    parse-build_write write_config span empty_packet (omega arith) (omega arith)

parse-build_read_reply_example :
    (bytes : List ℕ) × (ReadReply.build read_reply_config span
      ≡ ok (ReadReply.get_total_size read_reply_config, bytes))
    × (parse (take (ReadReply.get_total_size read_reply_config) bytes) empty_packet
        ≡ some (success, read_reply_fields read_reply_config empty_packet))
unfolding ReadReply.get_total_size
parse-build_read_reply_example =
    parse-build_read_reply read_reply_config span empty_packet (omega arith) (omega arith)

parse-build_write_reply_example :
    (bytes : List ℕ) × (WriteReply.build write_reply_config span
      ≡ ok (WriteReply.get_total_size write_reply_config, bytes))
    × (parse (take (WriteReply.get_total_size write_reply_config) bytes) empty_packet
        ≡ some (success, write_reply_fields write_reply_config empty_packet))
unfolding WriteReply.get_total_size
parse-build_write_reply_example =
    parse-build_write_reply write_reply_config span empty_packet (omega arith) (omega arith)
