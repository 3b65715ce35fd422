-- ===== src/Node/Retry.antt =====
-- write and read of SpwRmapTCPNodeImpl
-- (include/spw_rmap/internal/spw_rmap_tcp_node_impl.hh): start, wait, and try again.
pub mod Laws
pub mod Reading
pub mod Unanswered
use spw_rmap.Base.{
  ℕ, zero, suc, ◌-◌, List, [], ◌∷◌, Bool, false, Option, none, some, length, take, ltb, get_elem?,
  if◌then◌else◌, ◌==◌,
}
use spw_rmap.Rmap.{Packet, Result, err, Errc, ErrorCode}
use spw_rmap.Node.Table.{Completion, completes, Table, out_of_range, ◌>>=◌}
use spw_rmap.Node.Operations.{AsyncOperation, start_operation, cancel_transaction}
use spw_rmap.Node.Run.{Event, start, cancel, reply, send_result, run_event, run}

-- `future.wait_for(timeout) == ready`, and the value then.
unfoldable pub future_value : ℕ → Table → Option (Result (Unit {0}))
future_value p t = elim (get_elem? t.promises p) [ none ↦ none | some v ↦ v ]

abbrev pub cancel_if_started : AsyncOperation → Table → Option Table
cancel_if_started op t = elim op.transaction_id [
  | none ↦ some t
  | some id ↦ cancel_transaction id t
]

-- The surroundings of the attempt number `k`: two readings of the clock, the result of the send,
-- and what the other threads do before the wait ends.
pub record Attempt : Type 0 where
  pub now : ℕ
  pub now' : ℕ
  pub send : ℕ → Option ErrorCode
  pub others : List Event

-- What follows the wait: the result, or the next attempt.
unfoldable pub finish_attempt :
    (Table → Option (Result (Unit {0}) × Table))
    → AsyncOperation
    → Option (Result (Unit {0}))
    → Table
    → Option (Result (Unit {0}) × Table)
finish_attempt next op (some r) t = some (r, t)
finish_attempt next op none t = do t' ← cancel_if_started op t; next t'

-- The loop of write with `n` attempts left, from attempt `k` on.
unfoldable pub attempt_loop :
    (Packet → Completion) → (ℕ → Attempt) → ℕ → ℕ → Table → Option (Result (Unit {0}) × Table)
attempt_loop on_complete around zero k t = some (err (ErrorCode.errc Errc.timed_out), t)
attempt_loop on_complete around (suc n) k t = do
  let a = around k
  (op, t1) ← start_operation (a.now ∷ a.now' ∷ []) on_complete (send_result a.send) t
  t2 ← run a.others t1
  finish_attempt (attempt_loop on_complete around n (suc k)) op (future_value op.future t2) t2

-- write, for a lambda that returns or throws.
unfoldable pub synchronous :
    (Packet → Completion) → (ℕ → Attempt) → ℕ → Table → Option (Result (Unit {0}) × Table)
synchronous on_complete around retry_count =
    attempt_loop on_complete around (if retry_count == 0 then 1 else retry_count) 0

-- writeAsync and readAsync: the future of the operation.
unfoldable pub asynchronous :
    List ℕ → (Packet → Completion) → (ℕ → Result (Unit {0})) → Table → Option (ℕ × Table)
asynchronous times on_complete send t = do
  (op, t') ← start_operation times on_complete send t
  some (op.future, t')

-- read's lambda `copy_n(packet.data.data(), data.size(), data.data())`: the span `data` behind it.
-- `none` is a packet with less data, whose span it would leave.
unfoldable pub copy_n : Packet → List ℕ → Option (List ℕ)
copy_n packet bytes =
    if ltb (length packet.payload) (length bytes)
    then none
    else some (take (length bytes) packet.payload)

-- Whether poll calls the lambda of the operation with promise `p` on a reply.
unfoldable pub is_answer : ℕ → Packet → Table → Bool
is_answer p packet t =
    if out_of_range packet.transaction_id t
    then false
    else elim (get_elem? t.slots (packet.transaction_id - t.transaction_id_min)) [
      | none ↦ false
      | some s ↦ elim s.reply_callback [ none ↦ false | some cb ↦ cb.promise == p ]
    ]

-- What an event does to the span of the read with promise `p`.
unfoldable pub copy_event : ℕ → Event → Table → List ℕ → Option (List ℕ)
copy_event p (start now now' on_complete send) t bytes = some bytes
copy_event p (cancel id) t bytes = some bytes
copy_event p (reply packet) t bytes =
    if is_answer p packet t then copy_n packet bytes else some bytes

-- `run`, with the span of the read with promise `p`.
unfoldable pub run_copying : ℕ → List Event → List ℕ → Table → Option (List ℕ × Table)
run_copying p [] bytes t = some (bytes, t)
run_copying p (e ∷ es) bytes t = do
  bytes' ← copy_event p e t bytes
  t' ← run_event e t
  run_copying p es bytes' t'

abbrev pub ReadResult : Type 0
ReadResult = Option (Result (Unit {0}) × List ℕ × Table)

-- `finish_attempt` of a read with the span `bytes`.
unfoldable pub finish_read :
    (Table → ReadResult) → AsyncOperation → Option (Result (Unit {0})) → List ℕ → Table → ReadResult
finish_read next op (some r) bytes t = some (r, bytes, t)
finish_read next op none bytes t = do t' ← cancel_if_started op t; next t'

-- The loop of read; its lambda does not throw.
unfoldable pub read_loop : (ℕ → Attempt) → ℕ → ℕ → List ℕ → Table → ReadResult
read_loop around zero k bytes t = some (err (ErrorCode.errc Errc.timed_out), bytes, t)
read_loop around (suc n) k bytes t = do
  let a = around k
  (op, t1) ← start_operation (a.now ∷ a.now' ∷ []) (λ _. completes) (send_result a.send) t
  (bytes', t2) ← run_copying op.future a.others bytes t1
  finish_read (read_loop around n (suc k) bytes') op (future_value op.future t2) bytes' t2

unfoldable pub read : (ℕ → Attempt) → ℕ → List ℕ → Table → ReadResult
read around retry_count = read_loop around (if retry_count == 0 then 1 else retry_count) 0
