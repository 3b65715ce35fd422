-- ===== src/Node/SendTests.antt =====
-- The theorems on the frames and the sends of the node on a small target.
use spw_rmap.Base.{◌≡◌, refl, inl, [], ◌∷◌, true, length, replicate, ltb, if◌then◌else◌, arith}
use spw_rmap.Rmap.{ok, err, Errc, ErrorCode}
use spw_rmap.Builder.Read
use spw_rmap.Node.Frame.{frame_header, calculate_data_length}
use spw_rmap.Node.Frame.Laws.{calculate_data_length-frame_header}
use spw_rmap.Node.Send.{BufferPolicy, TargetNode, Sender, SendAll}
use spw_rmap.Rmap.{Packet, empty_packet}
use spw_rmap.Base.{ℕ, zero, suc, inr, Option, some, List}
use spw_rmap.Node.Link.{RecvSome}
use spw_rmap.Node.Receive.{recv_exact}
use spw_rmap.Node.Receive.Exact.{Delivers, ExactResult, recv_exact-ExactResult}
use spw_rmap.Builder.ReadReply.Bytes.{read_reply_packet}
use spw_rmap.Builder.WriteReply.Bytes.{write_reply_packet}
use spw_rmap.Node.Serve.{serve_read, serve_write, emit_time_code, time_code_packet}
use spw_rmap.Node.Serve.Laws.{read_answer, write_answer, serve_read-frame, serve_write-frame}
use spw_rmap.Node.Send.Room.{frame}

abbrev pub small_target : TargetNode
small_target = record {
  logical_address = 0x25;
  target_space_wire_address = 0x03 ∷ [];
  reply_address = 0x04 ∷ [];
}

abbrev pub sender : Sender
sender = record {
  connected = true;
  send_buf = replicate 20 0;
  buffer_policy = BufferPolicy.auto_resize;
  initiator_logical_address = 0xfe;
  verify_mode = true;
}

-- A backend that takes a frame of up to 46 bytes.
abbrev pub short_backend : SendAll
short_backend bytes = if ltb 46 (length bytes) then err (ErrorCode.errc Errc.timed_out) else ok tt

calculate_data_length-frame_header_example : calculate_data_length (frame_header 0x1234) ≡ ok 0x1234
calculate_data_length-frame_header_example = calculate_data_length-frame_header 0x1234 (omega arith)

abbrev command : Packet
command = record empty_packet {
  reply_address = 0x04 ∷ [];
  initiator_logical_address = 0xfe;
  target_logical_address = 0x25;
  transaction_id = 32;
  data_length = 2;
}

abbrev read_two : Packet → Option (List ℕ)
read_two packet = some (7 ∷ 8 ∷ [])

abbrev accept_write : Packet → Option (Unit {0})
accept_write packet = some tt

serve_read-frame_example :
    (serve_read short_backend (some read_two) BufferPolicy.auto_resize [] command).0
    ≡ short_backend (frame (read_reply_packet (read_answer command (7 ∷ 8 ∷ []))))
serve_read-frame_example =
    serve_read-frame short_backend BufferPolicy.auto_resize [] read_two command (7 ∷ 8 ∷ []) refl
      (inl refl)

serve_write-frame_example :
    (serve_write short_backend (some accept_write) BufferPolicy.auto_resize [] command).0
    ≡ short_backend (frame (write_reply_packet (write_answer command)))
serve_write-frame_example =
    serve_write-frame short_backend BufferPolicy.auto_resize [] accept_write command refl (inl refl)

time_code_example : emit_time_code short_backend true 0xc5 ≡ ok tt
unfolding emit_time_code time_code_packet
time_code_example = refl

-- A backend that gives at most two bytes of a stream at a time.
abbrev pub two_at_a_time : RecvSome (List ℕ)
two_at_a_time zero s = (ok [], s)
two_at_a_time (suc m) [] = (ok [], [])
two_at_a_time (suc zero) (b ∷ s) = (ok (b ∷ []), s)
two_at_a_time (suc (suc m)) (b ∷ []) = (ok (b ∷ []), [])
two_at_a_time (suc (suc m)) (b ∷ c ∷ s) = (ok (b ∷ c ∷ []), s)

two_at_a_time-Delivers : Delivers two_at_a_time
two_at_a_time-Delivers zero s = inr ([], refl, omega arith)
two_at_a_time-Delivers (suc m) [] = inr ([], refl, omega arith)
two_at_a_time-Delivers (suc zero) (b ∷ s) = inr (_, refl, omega arith)
two_at_a_time-Delivers (suc (suc m)) (b ∷ []) = inr (_, refl, omega arith)
two_at_a_time-Delivers (suc (suc m)) (b ∷ c ∷ s) = inr (_, refl, omega arith)

recv_exact-ExactResult_example :
    ExactResult 3 (recv_exact two_at_a_time true 3 (5 ∷ 6 ∷ 7 ∷ 8 ∷ []))
recv_exact-ExactResult_example =
    recv_exact-ExactResult two_at_a_time 3 (5 ∷ 6 ∷ 7 ∷ 8 ∷ []) two_at_a_time-Delivers
