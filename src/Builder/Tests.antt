-- ===== src/Builder/Tests.antt =====
-- The builders at concrete configurations.
use spw_rmap.Base.{◌≡◌, ◌++◌, ltb, if◌then◌else◌, drop, arith}
use spw_rmap.Rmap.{ok, err, Errc, ErrorCode}
use spw_rmap.Builder.Samples.{
  read_config, write_config, read_reply_config, write_reply_config, span,
}
use spw_rmap.Builder.Read
use spw_rmap.Builder.Write
use spw_rmap.Builder.ReadReply
use spw_rmap.Builder.WriteReply
use spw_rmap.Builder.Read.Bytes.{read_packet, build-read_packet}
use spw_rmap.Builder.Write.Bytes.{write_packet, build-write_packet}
use spw_rmap.Builder.ReadReply.Bytes.{read_reply_packet, build-read_reply_packet}
use spw_rmap.Builder.WriteReply.Bytes.{write_reply_packet, build-write_reply_packet}

build-read_packet_example : Read.build read_config span ≡ (
    if ltb 40 (Read.get_total_size read_config)
    then err (ErrorCode.errc Errc.no_buffer_space)
    else ok (
      Read.get_total_size read_config,
      read_packet read_config ++ drop (Read.get_total_size read_config) span,
    ))
build-read_packet_example = build-read_packet read_config span (omega arith)

build-write_packet_example : Write.build write_config span ≡ (
    if ltb 40 (Write.get_total_size write_config)
    then err (ErrorCode.errc Errc.no_buffer_space)
    else ok (
      Write.get_total_size write_config,
      write_packet write_config ++ drop (Write.get_total_size write_config) span,
    ))
build-write_packet_example = build-write_packet write_config span (omega arith)

build-read_reply_packet_example : ReadReply.build read_reply_config span ≡ (
    if ltb 40 (ReadReply.get_total_size read_reply_config)
    then err (ErrorCode.errc Errc.no_buffer_space)
    else ok (
      ReadReply.get_total_size read_reply_config,
      read_reply_packet read_reply_config ++ drop (ReadReply.get_total_size read_reply_config) span,
    ))
build-read_reply_packet_example = build-read_reply_packet read_reply_config span

build-write_reply_packet_example : WriteReply.build write_reply_config span ≡ (
    if ltb 40 (WriteReply.get_total_size write_reply_config)
    then err (ErrorCode.errc Errc.no_buffer_space)
    else ok (
      WriteReply.get_total_size write_reply_config,
      write_reply_packet write_reply_config
          ++ drop (WriteReply.get_total_size write_reply_config) span,
    ))
build-write_reply_packet_example = build-write_reply_packet write_reply_config span
