-- ===== src/Node/Run.antt =====
-- Sequences of the operations of SpwRmapTCPNodeImpl
-- (include/spw_rmap/internal/spw_rmap_tcp_node_impl.hh) on one table: starts, cancellations and
-- replies in any order, each of them as a whole.
pub mod Laws
use spw_rmap.Base.{ℕ, List, [], ◌∷◌, Option, none, some}
use spw_rmap.Rmap.{Packet, Result, ok, err, ErrorCode}
use spw_rmap.Node.Table.{Completion, Table, ◌>>=◌}
use spw_rmap.Node.Operations.{start_operation, cancel_transaction, handle_reply}

-- A start has two readings of the clock, and a send that succeeds or fails with an error.
pub data Event : Type 0 where
  start : ℕ → ℕ → (Packet → Completion) → (ℕ → Option ErrorCode) → Event
  cancel : ℕ → Event
  reply : Packet → Event

abbrev pub send_result : (ℕ → Option ErrorCode) → ℕ → Result (Unit {0})
send_result send id = elim (send id) [ none ↦ ok tt | some e ↦ err e ]

unfoldable pub run_event : Event → Table → Option Table
run_event (start now now' on_complete send) t = do
  (_, t') ← start_operation (now ∷ now' ∷ []) on_complete (send_result send) t
  some t'
run_event (cancel id) t = cancel_transaction id t
run_event (reply packet) t = do (_, t') ← handle_reply packet t; some t'

unfoldable pub run : List Event → Table → Option Table
run [] t = some t
run (e ∷ es) t = do t' ← run_event e t; run es t'
