-- ===== src/Node/Poll/Transaction.antt =====
-- A read from its start to its future: the command at the target, and the reply at the initiator.
use spw_rmap.Base.{
  ℕ, suc, Bool, true, ◌+◌, ◌≤◌, ◌≡◌, refl, ◌⊎◌, Option, some, List, ◌∷◌, length, get_elem?,
}
use spw_rmap.Rmap.{Packet, ReadReplyPacketConfig, Result, ok, ErrorCode}
use spw_rmap.Builder.Read.Bytes.{read_packet}
use spw_rmap.Builder.ReadReply
use spw_rmap.Builder.ReadReply.Bytes.{read_reply_packet}
use spw_rmap.RoundTrip.Read as ReadTrip
use spw_rmap.RoundTrip.ReadReply as ReplyTrip
use spw_rmap.Node.Table.{Completion, Table}
use spw_rmap.Node.Table.Valid.{IsValid}
use spw_rmap.Node.Table.Transitions.{completion_result}
use spw_rmap.Node.Operations.{AsyncOperation, start_operation}
use spw_rmap.Node.Run.{send_result}
use spw_rmap.Node.Run.Laws.{handle_reply-start_operation}
use spw_rmap.Node.Send.{SendAll, Sender, TargetNode, auto_resize, read_config}
use spw_rmap.Node.Send.Room.{frame}
use spw_rmap.Node.Link.{RecvSome}
use spw_rmap.Node.Receive.Frames.{Item}
use spw_rmap.Node.Poll.{Node, Derived, polled, poll}
use spw_rmap.Node.Poll.Arrivals.{Arrives}
use spw_rmap.Node.Poll.Laws.{PollsTo, answer_to_read, poll-read_command, poll-handle_reply}

-- One end of a link: a node, its backend and what arrives there.
pub record End (S : Type 0) : Type 0 where
  pub recv_some : RecvSome S
  pub pending : S → List ℕ
  pub derived : Derived S
  pub send_all : SendAll
  pub node : Node S
  pub items : List Item
  pub last : List ℕ
  pub rest : List ℕ

abbrev pub end_poll : {S : Type 0} → End S → Option (Result Bool × Node S)
end_poll e = poll e.recv_some e.derived e.send_all (suc (length e.items)) e.node

abbrev pub EndArrives : {S : Type 0} → End S → List ℕ → Type 0
EndArrives e = Arrives e.recv_some e.pending e.node e.items e.last e.rest

abbrev pub reply_config : Sender → TargetNode → ℕ → ℕ → ℕ → List ℕ → ReadReplyPacketConfig
reply_config s node id address size answer =
    answer_to_read (read_config s node id address size) answer

-- A read. The initiator's table was valid when the operation started and got its identifier. Where
-- the read command arrives at the target and on_read_callback_ gives data for it, the target's poll
-- hands the frame of the read reply to its backend. Where that reply arrives at the initiator and
-- the table is the one behind the start, the initiator's poll goes on, and the operation's future
-- has the result of its callback on the packet with the reply's fields and the target's data. Both
-- packets are sendable, and the target's send buffer may grow or has room for the reply.
pub read_transaction :
    {S T : Type 0} (initiator : End S) (target : End T) (s : Sender) (node : TargetNode)
    (id address size now now' : ℕ) (later : List ℕ) (on_complete : Packet → Completion)
    (send : ℕ → Option ErrorCode) (t : Table) (op : AsyncOperation)
    (on_read : Packet → Option (List ℕ)) (answer : List ℕ)
    → IsValid t
    → start_operation (now ∷ now' ∷ later) on_complete (send_result send) t
      ≡ some (op, initiator.node.table)
    → op.transaction_id ≡ some id
    → ReadTrip.IsSendable (read_config s node id address size)
    → EndArrives target (read_packet (read_config s node id address size))
    → target.node.on_read_callback ≡ some on_read
    → on_read
        (ReadTrip.read_fields (read_config s node id address size) target.node.receiver.packet)
      ≡ some answer
    → (target.node.receiver.buffer_policy ≡ auto_resize)
      ⊎ (ReadReply.get_total_size (reply_config s node id address size answer) + 12
          ≤ length target.node.send_buf)
    → ReplyTrip.IsSendable (reply_config s node id address size answer)
    → EndArrives initiator (read_reply_packet (reply_config s node id address size answer))
    → PollsTo target.pending
        (end_poll target)
        (polled (
          target.send_all (frame (read_reply_packet (reply_config s node id address size answer)))))
        target.node.table
        target.rest
      × ((t2 : Table) × PollsTo initiator.pending (end_poll initiator) (ok true) t2 initiator.rest
          × (get_elem? t2.promises op.future
              ≡ some (
                  some (
                    completion_result (
                      on_complete (
                        ReplyTrip.read_reply_fields
                          (reply_config s node id address size answer)
                          initiator.node.receiver.packet))))))
read_transaction i target s node id address size now now' later on_complete send t op on_read answer
      v started has_id sendable arrives registered gives room reply_sendable replies =
    let config = reply_config s node id address size answer in
    let k = ReplyTrip.read_reply_fields config i.node.receiver.packet in
    let (t2, e, kept) =
      handle_reply-start_operation t i.node.table op id now now' later on_complete send k v started
        has_id refl in
    (
      poll-read_command target.recv_some target.pending target.derived target.send_all target.node
          target.items target.last target.rest (read_config s node id address size) on_read answer
          sendable arrives registered gives room,
      (
        t2,
        poll-handle_reply i.recv_some i.pending i.derived i.send_all i.node i.items i.last i.rest
            config t2 reply_sendable replies e,
        kept,
      ),
    )
