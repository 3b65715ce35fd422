-- ===== src/Lib.antt =====
-- A model of spw_rmap, a SpaceWire/RMAP library in C++.
--
-- The program's parts, and the files that model them:
--   * src/crc.cc: `Crc`. `calc_crc` is calcCRC, with its lookup table; the laws are in `Crc/Laws`
--     and `Crc/Detect`.
--   * include/spw_rmap/rmap_packet_type.hh, packet_parser.hh, packet_builder.hh, error_code.hh: the
--     enums, the packet and the configurations are the data of `Rmap`.
--   * src/packet_builder.cc: `Builder`, with a child for each builder class. `Builder/Cursor` models
--     `out[head++] = b`; `build` takes the span and gives the size and the span after the call. What
--     a builder writes is proved in its child `Bytes`, against the layout of `Builder/Layout`.
--   * src/packet_parser.cc: `Parser`. `Parser/Monad` has the steps of a parse (`packet[head++]`, the
--     writes to `packet_`, early returns), `Parser/Commands` parseReadPacket and parseWritePacket,
--     `Parser/Replies` the two reply parsers, `Parser/Dispatch` parse itself.
--   * `RoundTrip` relates the builders and the parser.
--   * include/spw_rmap/internal/spw_rmap_tcp_node_impl.hh: `Node`. `Node/Table` has the vectors that
--     a transaction's identifier indexes, the promises, releaseTransactionID_,
--     forceReleaseTransaction_ and getAvailableTransactionID_; `Node/Operations` the start of a
--     write or read, cancelTransaction_ and the replies in poll; `Node/Run` sequences of these, and
--     `Node/Retry` the loops of write and read, with the span that read's callback fills; the result
--     of sending a packet is an argument there. `Node/Send` has sendReadPacket_, sendWritePacket_ and
--     send_ on send_buf_, with the backend's sendAll as an argument, and `Node/Frame` the header of a
--     frame and calculateDataLength.
--     `Node/Serve` has the command cases of poll, with the user's callbacks as arguments, and
--     emitTimeCode. `Node/Link` has the members and the steps of the receiving side, `Node/Receive`
--     recvExact_, ignoreNBytes_ and recvAndParseOnePacket_ over the backend's recvSome, and
--     `Node/Poll` poll, which joins receiving, transactions and commands, and runLoop.
--   * include/spw_rmap/spw_rmap_tcp_node.hh: `Node/Life`, with connect, acceptOnce, setSendTimeout
--     and shutdown over the functions of the backend.
--   * src/tcp_client.cc and src/tcp_server.cc: `Tcp`. `Tcp/System` is the record of the system calls,
--     over a state of the system, `Tcp/Steps` the loops on EINTR and the early returns, `Tcp/Options`
--     the functions that set a socket up, `Tcp/Client` and `Tcp/Server` the two classes, and
--     `Tcp/Promises` what they rely on in the system calls. `Tcp/Stream` joins them to `Node`: their
--     recvSome is the stream that the theorems on receiving are about.
--
-- Representation. A span is the list of the bytes in it, and an unsigned integer a natural number:
-- casts and shifts are written out, and where a theorem needs the width of a field it is a
-- hypothesis. `int head` and size_t are unbounded, since spans are far shorter than their range. A
-- read or write outside a span, and a failed assert, is the outcome `fault` or `none`, never a value.
-- Fuel: the path loop of parse gets one round more than the span has bytes, and each round moves on.
-- The loop of getAvailableTransactionID_ takes a list of the times that its rounds read, and two are
-- enough: the first time-out frees a slot. The attempts of write and read count down.
-- The loop of recvExact_ gets one round more than the span has bytes, and each round fills a byte.
-- The loops over frames in recvAndParseOnePacket_ and over packets in runLoop get one round more than
-- bytes are to come, since each round takes a byte or ends. The loops on EINTR get one round more
-- than there are interruptions to come, and those of sendAll as many more as there are bytes.
--
-- The node's operations are whole steps on the table, in the order of a sequence; between the start
-- and the end of a wait in write or read, any steps of other threads come.
--
-- Not modelled: include/spw_rmap/internal/debug.hh (output only), app/, examples/ and bindings/ (glue
-- around the library), the code for __APPLE__, failed allocations, the interleaving of the locked
-- sections of the node's operations, exceptions of a user's callback for commands other than
-- std::exception (which end the program), and the texts of error messages.
pub mod Base
pub mod Crc
pub mod Rmap
pub mod Builder
pub mod Parser
pub mod RoundTrip
pub mod Tcp
pub mod Node
