-- ===== src/Node/Serve.antt =====
-- The cases of poll for a read and a write command, and emitTimeCode, of SpwRmapTCPNodeImpl
-- (include/spw_rmap/internal/spw_rmap_tcp_node_impl.hh). `send_all` is the backend's sendAll. A
-- callback of the user gives `none` when it throws a std::exception; what else it may throw leaves poll,
-- which is noexcept and so ends the program, and is not modelled.
pub mod Laws
use spw_rmap.Base.{
  ℕ, ◌+◌, List, [], ◌∷◌, ◌++◌, Bool, true, Option, none, some, drop, replicate, if◌then◌else◌,
}
use spw_rmap.Rmap.{
  Packet, PacketStatusCode, status_code, ReadReplyPacketConfig, WriteReplyPacketConfig, Result, err,
  Errc, ErrorCode,
}
use spw_rmap.Builder.ReadReply
use spw_rmap.Builder.WriteReply
use spw_rmap.Node.Send.{BufferPolicy, SendAll, Sent, make_room, with_room, with_built, send_frame}

abbrev pub read_reply_config : Packet → List ℕ → ReadReplyPacketConfig
read_reply_config packet payload = record {
  reply_address = packet.reply_address;
  initiator_logical_address = packet.target_logical_address;
  status = status_code PacketStatusCode.command_executed_successfully;
  target_logical_address = packet.initiator_logical_address;
  transaction_id = packet.transaction_id;
  payload = payload;
  increment_mode = true;
}

abbrev pub write_reply_config : Packet → WriteReplyPacketConfig
write_reply_config packet = record {
  reply_address = packet.reply_address;
  initiator_logical_address = packet.target_logical_address;
  status = status_code PacketStatusCode.command_executed_successfully;
  target_logical_address = packet.initiator_logical_address;
  transaction_id = packet.transaction_id;
  increment_mode = true;
  verify_mode = true;
}

-- What follows a callback of the user.
abbrev pub after_callback : {A : Type 0} → Option A → List ℕ → (A → Sent) → Sent
after_callback none buf next = (err (ErrorCode.errc Errc.operation_canceled), buf)
after_callback (some a) buf next = next a

-- The reply behind on_read_callback_; a length of the data that differs from the command's is only
-- printed.
unfoldable pub send_read_reply : SendAll → BufferPolicy → List ℕ → ReadReplyPacketConfig → Sent
send_read_reply send_all policy send_buf config =
    with_room (make_room policy (ReadReply.get_total_size config + 12) send_buf) send_buf λ buf.
      with_built (ReadReply.build config (drop 12 buf)) buf
        (send_frame send_all (ReadReply.get_total_size config))

unfoldable pub send_write_reply : SendAll → BufferPolicy → List ℕ → WriteReplyPacketConfig → Sent
send_write_reply send_all policy send_buf config =
    with_room (make_room policy (WriteReply.get_total_size config + 12) send_buf) send_buf λ buf.
      with_built (WriteReply.build config (drop 12 buf)) buf
        (send_frame send_all (WriteReply.get_total_size config))

-- `on_read` is on_read_callback_, or nothing if none is registered.
unfoldable pub serve_read :
    SendAll → Option (Packet → Option (List ℕ)) → BufferPolicy → List ℕ → Packet → Sent
serve_read send_all none policy send_buf packet =
    send_read_reply send_all policy send_buf (read_reply_config packet [])
serve_read send_all (some on_read) policy send_buf packet =
    after_callback (on_read packet) send_buf
      λ payload. send_read_reply send_all policy send_buf (read_reply_config packet payload)

unfoldable pub serve_write :
    SendAll → Option (Packet → Option (Unit {0})) → BufferPolicy → List ℕ → Packet → Sent
serve_write send_all none policy send_buf packet =
    send_write_reply send_all policy send_buf (write_reply_config packet)
serve_write send_all (some on_write) policy send_buf packet =
    after_callback (on_write packet) send_buf
      λ _. send_write_reply send_all policy send_buf (write_reply_config packet)

-- The 14 bytes of a time code.
unfoldable pub time_code_packet : ℕ → List ℕ
time_code_packet timecode = 0x30 ∷ 0x00 ∷ (replicate 9 0x00 ++ 0x02 ∷ timecode ∷ 0x00 ∷ [])

unfoldable pub emit_time_code : SendAll → Bool → ℕ → Result (Unit {0})
emit_time_code send_all connected timecode =
    if connected
    then send_all (time_code_packet timecode)
    else err (ErrorCode.errc Errc.not_connected)
