-- ===== src/Node/Send.antt =====
-- sendReadPacket_, sendWritePacket_ and send_ of SpwRmapTCPNodeImpl
-- (include/spw_rmap/internal/spw_rmap_tcp_node_impl.hh). `send_all` is the backend's sendAll. Each
-- function gives its result and send_buf_ after it.
pub mod Room
pub mod Laws
use spw_rmap.Base.{
  ℕ, ◌+◌, ◌-◌, ◌*◌, ◌/◌, List, ◌++◌, Bool, true, not, Option, none, some, length, take, drop,
  replicate, ltb, if◌then◌else◌,
}
use spw_rmap.Rmap.{ReadPacketConfig, WritePacketConfig, Result, ok, err, fault, Errc, ErrorCode}
use spw_rmap.Builder.Read
use spw_rmap.Builder.Write
use spw_rmap.Node.Frame.{frame_header}

pub data BufferPolicy : Type 0 where
  fixed auto_resize : BufferPolicy

-- The addresses of a TargetNodeBase (include/spw_rmap/target_node.hh).
pub record TargetNode : Type 0 where
  pub logical_address : ℕ
  pub target_space_wire_address : List ℕ
  pub reply_address : List ℕ

-- The members that sending reads and writes; `connected` says that tcp_backend_ is not null.
pub record Sender : Type 0 where
  pub connected : Bool
  pub send_buf : List ℕ
  pub buffer_policy : BufferPolicy
  pub initiator_logical_address : ℕ
  pub verify_mode : Bool

-- The backend takes the bytes, or fails.
abbrev pub SendAll : Type 0
SendAll = List ℕ → Result (Unit {0})

abbrev pub Sent : Type 0
Sent = Result (Unit {0}) × List ℕ

-- `send_buf_.resize(n)`
abbrev pub resize : ℕ → List ℕ → List ℕ
resize n buf = take n buf ++ replicate (n - length buf) 0

-- The buffer with `n` bytes at least, or nothing when it must not grow.
unfoldable pub make_room : BufferPolicy → ℕ → List ℕ → Option (List ℕ)
make_room BufferPolicy.fixed n buf = if ltb (length buf) n then none else some buf
make_room BufferPolicy.auto_resize n buf =
    if ltb (length buf) n then some (resize n buf) else some buf

-- send_; behind `first(total_size + 12)` the buffer has these bytes.
unfoldable pub send_frame : SendAll → ℕ → List ℕ → Sent
send_frame send_all total_size buf =
    if ltb (length buf) (total_size + 12)
    then (fault, buf)
    else let buf' = frame_header total_size ++ drop 12 buf in
      (send_all (take (total_size + 12) buf'), buf')

abbrev pub read_config : Sender → TargetNode → ℕ → ℕ → ℕ → ReadPacketConfig
read_config s node id memory_address data_length = record {
  target_space_wire_address = node.target_space_wire_address;
  reply_address = node.reply_address;
  target_logical_address = node.logical_address;
  initiator_logical_address = s.initiator_logical_address;
  transaction_id = id;
  extended_address = 0x00;
  address = memory_address;
  data_length = data_length;
  key = 0;
  increment_mode = true;
}

abbrev pub write_config : Sender → TargetNode → ℕ → ℕ → List ℕ → WritePacketConfig
write_config s node id memory_address payload = record {
  target_space_wire_address = node.target_space_wire_address;
  reply_address = node.reply_address;
  target_logical_address = node.logical_address;
  initiator_logical_address = s.initiator_logical_address;
  transaction_id = id;
  key = 0;
  extended_address = 0x00;
  address = memory_address;
  increment_mode = true;
  reply = true;
  verify_mode = s.verify_mode;
  payload = payload;
}

-- The length that both functions expect, without data.
abbrev pub expected_length : TargetNode → ℕ
expected_length node =
    length node.target_space_wire_address + (length node.reply_address + 3) / 4 * 4 + 4 + 12 + 1

-- What follows the building of a packet: `next` on the buffer with the packet at its byte 12.
abbrev pub with_built : Result (ℕ × List ℕ) → List ℕ → (List ℕ → Sent) → Sent
with_built (ok (_, bytes)) buf next = next (take 12 buf ++ bytes)
with_built (err e) buf next = (err e, buf)
with_built fault buf next = (fault, buf)

abbrev pub no_room : List ℕ → Sent
no_room buf = (err (ErrorCode.errc Errc.no_buffer_space), buf)

-- What follows the growing of the buffer `buf`.
abbrev pub with_room : Option (List ℕ) → List ℕ → (List ℕ → Sent) → Sent
with_room none buf next = no_room buf
with_room (some buf') buf next = next buf'

-- Both functions behind the test of tcp_backend_. The buffer that `subspan(12)` is taken of has 17
-- bytes at least.
unfoldable pub put_write_packet : SendAll → Sender → TargetNode → WritePacketConfig → Sent
put_write_packet send_all s node config =
    with_room
      (make_room s.buffer_policy (expected_length node + length config.payload + 12) s.send_buf)
      s.send_buf
      λ buf.
        with_built (Write.build config (drop 12 buf)) buf
          (send_frame send_all (Write.get_total_size config))

unfoldable pub put_read_packet : SendAll → Sender → TargetNode → ReadPacketConfig → Sent
put_read_packet send_all s node config =
    with_room (make_room s.buffer_policy (expected_length node) s.send_buf) s.send_buf λ buf.
      with_built (Read.build config (drop 12 buf)) buf λ built.
        with_room (make_room s.buffer_policy (Read.get_total_size config + 12) built) built
          (send_frame send_all (Read.get_total_size config))

unfoldable pub send_write_packet : SendAll → Sender → TargetNode → ℕ → ℕ → List ℕ → Sent
send_write_packet send_all s node id memory_address payload =
    if s.connected
    then put_write_packet send_all s node (write_config s node id memory_address payload)
    else (err (ErrorCode.errc Errc.not_connected), s.send_buf)

unfoldable pub send_read_packet : SendAll → Sender → TargetNode → ℕ → ℕ → ℕ → Sent
send_read_packet send_all s node id memory_address data_length =
    if s.connected
    then put_read_packet send_all s node (read_config s node id memory_address data_length)
    else (err (ErrorCode.errc Errc.not_connected), s.send_buf)
