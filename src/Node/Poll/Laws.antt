-- ===== src/Node/Poll/Laws.antt =====
-- What poll does with the commands and the replies that arrive.
use spw_rmap.Base.{
  ℕ, suc, Bool, true, ◌+◌, ◌≤◌, ◌≡◌, refl, sym, ap, ◌∙◌, subst, ◌⊎◌, Option, some, List, length,
  get_elem?,
}
use spw_rmap.Parser.Fields.Total.{strip_zeros}
use spw_rmap.Rmap.{
  WriteReplyPacketConfig, Packet, ReadPacketConfig, ReadReplyPacketConfig, WritePacketConfig,
  Result, ok,
}
use spw_rmap.Builder.Read.Bytes.{read_packet}
use spw_rmap.Builder.Write.Bytes.{write_packet}
use spw_rmap.Builder.ReadReply
use spw_rmap.Builder.WriteReply
use spw_rmap.Builder.ReadReply.Bytes.{read_reply_packet}
use spw_rmap.Builder.WriteReply.Bytes.{write_reply_packet}
use spw_rmap.RoundTrip.Read as ReadTrip
use spw_rmap.RoundTrip.Write as WriteTrip
use spw_rmap.RoundTrip.ReadReply as ReplyTrip
use spw_rmap.Node.Table.{Slot, Table}
use spw_rmap.Node.Table.Valid.{IsValid, IsBusy}
use spw_rmap.Node.Table.Transitions.{closed, reply_result}
use spw_rmap.Node.Operations.{handle_reply}
use spw_rmap.Node.Operations.Outcomes.{handle_reply-busy}
use spw_rmap.Node.Send.{BufferPolicy, SendAll, Sent, auto_resize}
use spw_rmap.Node.Send.Room.{frame}
use spw_rmap.Node.Serve.{serve_read, serve_write}
use spw_rmap.Node.Serve.Laws.{serve_read-frame, serve_write-frame}
use spw_rmap.Node.Link.{RecvSome}
use spw_rmap.Node.Receive.Frames.{Item}
use spw_rmap.Node.Poll.{Node, Derived, polled, replied, dispatch_packet, poll}
use spw_rmap.Node.Poll.Arrivals.{Arrives, poll-Arrives}

-- A poll that ends with `x`, the table `t`, and the stream at `rest`.
abbrev pub PollsTo :
    {S : Type 0}
    → (S → List ℕ)
    → Option (Result Bool × Node S)
    → Result Bool
    → Table
    → List ℕ
    → Type 0
PollsTo {S} pending outcome x t rest =
    (n' : Node S) × (outcome ≡ some (x, n')) × (n'.table ≡ t) × (pending n'.receiver.stream ≡ rest)

-- What the read reply to a command has to say: the status 0, the command's reply address without its
-- leading zeros, its logical addresses exchanged, its identifier, and the data.
abbrev pub answer_to_read : ReadPacketConfig → List ℕ → ReadReplyPacketConfig
answer_to_read config payload = record {
  reply_address = strip_zeros config.reply_address;
  initiator_logical_address = config.target_logical_address;
  status = 0x00;
  target_logical_address = config.initiator_logical_address;
  transaction_id = config.transaction_id;
  payload = payload;
  increment_mode = true;
}

-- The same of the write reply.
abbrev pub answer_to_write : WritePacketConfig → WriteReplyPacketConfig
answer_to_write config = record {
  reply_address = strip_zeros config.reply_address;
  initiator_logical_address = config.target_logical_address;
  status = 0x00;
  target_logical_address = config.initiator_logical_address;
  transaction_id = config.transaction_id;
  increment_mode = true;
  verify_mode = true;
}

same_policy :
    (p q : BufferPolicy) (m l : ℕ)
    → p ≡ q
    → (p ≡ auto_resize) ⊎ (m ≤ l)
    → (q ≡ auto_resize) ⊎ (m ≤ l)
same_policy p q m l e h = subst (λ x. (x ≡ auto_resize) ⊎ (m ≤ l)) e h

module _ {S : Type 0} (recv_some : RecvSome S) (pending : S → List ℕ) (d : Derived S)
    (send_all : SendAll) (n : Node S) (items : List Item) (xs rest : List ℕ) where
  -- A read command that arrives, in any frames, is answered: when on_read_callback_ gives data for
  -- it, poll hands to the backend one frame with a read reply, and goes on if the backend takes it. The
  -- reply has the status 0, the command's reply address without its leading zeros, its two logical
  -- addresses exchanged, its transaction identifier, the increment bit, and the data. The command is
  -- sendable, and the send buffer may grow or has room for the reply.
  pub poll-read_command :
      (config : ReadPacketConfig) (on_read : Packet → Option (List ℕ)) (answer : List ℕ)
      → ReadTrip.IsSendable config
      → Arrives recv_some pending n items xs rest (read_packet config)
      → n.on_read_callback ≡ some on_read
      → on_read (ReadTrip.read_fields config n.receiver.packet) ≡ some answer
      → (n.receiver.buffer_policy ≡ auto_resize)
        ⊎ (ReadReply.get_total_size (answer_to_read config answer) + 12 ≤ length n.send_buf)
      → PollsTo pending
          (poll recv_some d send_all (suc (length items)) n)
          (polled (send_all (frame (read_reply_packet (answer_to_read config answer)))))
          n.table
          rest
  unfolding dispatch_packet
  poll-read_command config on_read answer sendable a registered gives room =
      let k : Packet = ReadTrip.read_fields config n.receiver.packet in
      let (r, e, q, policy, p) =
        poll-Arrives recv_some pending d send_all n items xs rest (read_packet config) a k
          (ReadTrip.parse-read_packet config n.receiver.packet sendable) in
      let sent : Sent = serve_read send_all n.on_read_callback r.buffer_policy n.send_buf k in
      let n' : Node S = record n { receiver = r; send_buf = sent.1 } in
      let served : sent.0 ≡ send_all (frame (read_reply_packet (answer_to_read config answer))) =
        ap (λ o. (serve_read send_all o r.buffer_policy n.send_buf k).0) registered
        ∙ serve_read-frame send_all r.buffer_policy n.send_buf on_read k answer gives
            (same_policy _ _ _ _ (sym policy) room) in
      (n', e ∙ ap (λ x. some (polled x, n')) served, refl, p)

  -- A write command that arrives, in any frames, is answered: when on_write_callback_ returns, poll
  -- hands to the backend one frame with a write reply, and goes on if the backend takes it. The reply
  -- has the status 0, the command's reply address without its leading zeros, its two logical addresses
  -- exchanged, its transaction identifier, and the increment and verify bits. The command is sendable,
  -- and the send buffer may grow or has room for the reply.
  pub poll-write_command :
      (config : WritePacketConfig) (on_write : Packet → Option (Unit {0}))
      → WriteTrip.IsSendable config
      → Arrives recv_some pending n items xs rest (write_packet config)
      → n.on_write_callback ≡ some on_write
      → on_write (WriteTrip.write_fields config n.receiver.packet) ≡ some tt
      → (n.receiver.buffer_policy ≡ auto_resize)
        ⊎ (WriteReply.get_total_size (answer_to_write config) + 12 ≤ length n.send_buf)
      → PollsTo pending
          (poll recv_some d send_all (suc (length items)) n)
          (polled (send_all (frame (write_reply_packet (answer_to_write config)))))
          n.table
          rest
  unfolding dispatch_packet
  poll-write_command config on_write sendable a registered gives room =
      let k : Packet = WriteTrip.write_fields config n.receiver.packet in
      let (r, e, q, policy, p) =
        poll-Arrives recv_some pending d send_all n items xs rest (write_packet config) a k
          (WriteTrip.parse-write_packet config n.receiver.packet sendable) in
      let sent : Sent = serve_write send_all n.on_write_callback r.buffer_policy n.send_buf k in
      let n' : Node S = record n { receiver = r; send_buf = sent.1 } in
      let served : sent.0 ≡ send_all (frame (write_reply_packet (answer_to_write config))) =
        ap (λ o. (serve_write send_all o r.buffer_policy n.send_buf k).0) registered
        ∙ serve_write-frame send_all r.buffer_policy n.send_buf on_write k gives
            (same_policy _ _ _ _ (sym policy) room) in
      (n', e ∙ ap (λ x. some (polled x, n')) served, refl, p)

  -- A read reply that arrives, in any frames, and that the table of transactions takes.
  pub poll-handle_reply :
      (config : ReadReplyPacketConfig) (t : Table)
      → ReplyTrip.IsSendable config
      → Arrives recv_some pending n items xs rest (read_reply_packet config)
      → handle_reply (ReplyTrip.read_reply_fields config n.receiver.packet) n.table
        ≡ some (ok tt, t)
      → PollsTo pending (poll recv_some d send_all (suc (length items)) n) (ok true) t rest
  unfolding dispatch_packet
  poll-handle_reply config t sendable a h =
      let k : Packet = ReplyTrip.read_reply_fields config n.receiver.packet in
      let (r, e, q, policy, p) =
        poll-Arrives recv_some pending d send_all n items xs rest (read_reply_packet config) a k
          (ReplyTrip.parse-read_reply_packet config n.receiver.packet sendable) in
      (
        record n { receiver = r; table = t },
        e ∙ ap (λ o. replied o (record n { receiver = r })) h,
        refl,
        p,
      )

  -- A read reply that arrives, in any frames, on a node with a valid table, where the operation with
  -- the reply's identifier is open: poll runs its callback on the packet with the reply's fields and
  -- data, gives its promise the result, frees the identifier, and goes on.
  pub poll-read_reply :
      (config : ReadReplyPacketConfig) (i : ℕ) (s : Slot)
      → ReplyTrip.IsSendable config
      → Arrives recv_some pending n items xs rest (read_reply_packet config)
      → IsValid n.table
      → config.transaction_id ≡ n.table.transaction_id_min + i
      → (b : IsBusy n.table i s) → get_elem? n.table.slots i ≡ some s
      → PollsTo pending
          (poll recv_some d send_all (suc (length items)) n)
          (ok true)
          (closed i b.cb.promise
            (reply_result b.cb (ReplyTrip.read_reply_fields config n.receiver.packet))
            n.table)
          rest
  poll-read_reply config i s sendable a v id b here = poll-handle_reply config _ sendable a (
      handle_reply-busy n.table v i (ReplyTrip.read_reply_fields config n.receiver.packet) id s b
        here)
