-- ===== src/Node/Serve/Laws.antt =====
-- What poll hands to the backend when it serves a command.
use spw_rmap.Base.{true, ℕ, ◌+◌, ◌≤◌, ◌≡◌, refl, ap, ◌∙◌, ◌⊎◌, List, Option, some, length, le→ltb}
use spw_rmap.Rmap.{Packet, ReadReplyPacketConfig, WriteReplyPacketConfig}
use spw_rmap.Builder.ReadReply
use spw_rmap.Builder.WriteReply
use spw_rmap.Builder.ReadReply.Bytes.{
  read_reply_packet, build-read_reply_packet, length-read_reply_packet,
}
use spw_rmap.Builder.WriteReply.Bytes.{
  write_reply_packet, build-write_reply_packet, length-write_reply_packet,
}
use spw_rmap.Node.Send.{BufferPolicy, auto_resize, SendAll}
use spw_rmap.Node.Send.Room.{frame, with_room-frame}
use spw_rmap.Node.Serve.{
  after_callback, read_reply_config, write_reply_config, send_read_reply, send_write_reply,
  serve_read, serve_write,
}

-- What a read reply to `packet` has to say: the status 0, the packet's addresses exchanged, its
-- identifier, and the data.
abbrev pub read_answer : Packet → List ℕ → ReadReplyPacketConfig
read_answer packet payload = record {
  reply_address = packet.reply_address;
  initiator_logical_address = packet.target_logical_address;
  status = 0x00;
  target_logical_address = packet.initiator_logical_address;
  transaction_id = packet.transaction_id;
  payload = payload;
  increment_mode = true;
}

-- The same of a write reply.
abbrev pub write_answer : Packet → WriteReplyPacketConfig
write_answer packet = record {
  reply_address = packet.reply_address;
  initiator_logical_address = packet.target_logical_address;
  status = 0x00;
  target_logical_address = packet.initiator_logical_address;
  transaction_id = packet.transaction_id;
  increment_mode = true;
  verify_mode = true;
}

module _ (send_all : SendAll) (policy : BufferPolicy) (send_buf : List ℕ) where
  send_read_reply-frame :
      (config : ReadReplyPacketConfig)
      → (policy ≡ auto_resize) ⊎ (ReadReply.get_total_size config + 12 ≤ length send_buf)
      → (send_read_reply send_all policy send_buf config).0
        ≡ send_all (frame (read_reply_packet config))
  unfolding send_read_reply
  send_read_reply-frame config room =
      with_room-frame send_all policy send_buf (read_reply_packet config)
        (ReadReply.get_total_size config) (ReadReply.build config) (length-read_reply_packet config)
        (λ out h. build-read_reply_packet config out ∙ rw (le→ltb _ _ h) refl) room

  send_write_reply-frame :
      (config : WriteReplyPacketConfig)
      → (policy ≡ auto_resize) ⊎ (WriteReply.get_total_size config + 12 ≤ length send_buf)
      → (send_write_reply send_all policy send_buf config).0
        ≡ send_all (frame (write_reply_packet config))
  unfolding send_write_reply
  send_write_reply-frame config room =
      with_room-frame send_all policy send_buf (write_reply_packet config)
        (WriteReply.get_total_size config) (WriteReply.build config)
        (length-write_reply_packet config)
        (λ out h. build-write_reply_packet config out ∙ rw (le→ltb _ _ h) refl) room

  -- A read command whose callback gives data is answered by one frame with a read reply, when the
  -- buffer may grow or has the room; the result is the backend's. The reply has the status 0, the
  -- command's reply address, its two logical addresses exchanged, its transaction identifier, the
  -- increment bit, and the data.
  pub serve_read-frame :
      (on_read : Packet → Option (List ℕ)) (packet : Packet) (payload : List ℕ)
      → on_read packet ≡ some payload
      → (policy ≡ auto_resize)
        ⊎ (ReadReply.get_total_size (read_answer packet payload) + 12 ≤ length send_buf)
      → (serve_read send_all (some on_read) policy send_buf packet).0
        ≡ send_all (frame (read_reply_packet (read_answer packet payload)))
  unfolding serve_read
  serve_read-frame on_read packet payload e room =
      ap
        (λ o.
          (after_callback o send_buf
            λ d. send_read_reply send_all policy send_buf (read_reply_config packet d)).0)
        e
      ∙ send_read_reply-frame (read_answer packet payload) room

  -- A write command whose callback returns is answered by one frame with a write reply, when the
  -- buffer may grow or has the room; the result is the backend's. The reply has the status 0, the
  -- command's reply address, its two logical addresses exchanged, its transaction identifier, and the
  -- increment and verify bits.
  pub serve_write-frame :
      (on_write : Packet → Option (Unit {0})) (packet : Packet)
      → on_write packet ≡ some tt
      → (policy ≡ auto_resize)
        ⊎ (WriteReply.get_total_size (write_answer packet) + 12 ≤ length send_buf)
      → (serve_write send_all (some on_write) policy send_buf packet).0
        ≡ send_all (frame (write_reply_packet (write_answer packet)))
  unfolding serve_write
  serve_write-frame on_write packet e room =
      ap
        (λ (o : Option (Unit {0})).
          (after_callback o send_buf
            λ _. send_write_reply send_all policy send_buf (write_reply_config packet)).0)
        e
      ∙ send_write_reply-frame (write_answer packet) room
