-- ===== src/Node/Operations.antt =====
-- The operations of SpwRmapTCPNodeImpl
-- (include/spw_rmap/internal/spw_rmap_tcp_node_impl.hh) on the table of transactions.
pub mod Outcomes
pub mod Start
pub mod Cases
use spw_rmap.Base.{
  ℕ, zero, suc, ◌+◌, ◌-◌, List, [], ◌∷◌, ◌++◌, Bool, true, false, Option, none, some, length,
  get_elem?, if◌then◌else◌, ◌==◌,
}
use spw_rmap.Rmap.{Packet, Result, ok, err, fault, Errc, ErrorCode}
use spw_rmap.Node.Table.{
  Completion, Callback, Slot, Table, ◌>>=◌, update_slot, set_value, out_of_range,
  release_transaction_id, call_reply, clear_callbacks, get_available,
}

-- AsyncOperation; a future is the place of its promise.
pub record AsyncOperation : Type 0 where
  pub future : ℕ
  pub transaction_id : Option ℕ

unfoldable pub cancel_transaction : ℕ → Table → Option Table
cancel_transaction id t =
    if out_of_range id t
    then some t
    else do t' ← clear_callbacks (id - t.transaction_id_min) t; release_transaction_id id t'

-- Both lambdas are stored.
abbrev pub register : Callback → Slot → Slot
register cb s = record s { reply_callback = some cb; reply_error_callback = some cb }

abbrev pub callback : ℕ → ℕ → ℕ → (Packet → Completion) → Callback
callback promise id index on_complete = record {
  promise = promise;
  transaction_id = id;
  tx_index = index;
  on_complete = on_complete;
}

-- What follows the send in startWriteAsyncOperation_ and startReadAsyncOperation_.
unfoldable pub after_send : Callback → Result (Unit {0}) → Table → Option (AsyncOperation × Table)
after_send cb (ok _) t =
    some (record { future = cb.promise; transaction_id = some cb.transaction_id }, t)
after_send cb (err e) t = do
  t1 ← clear_callbacks cb.tx_index t
  t2 ← set_value cb.promise (err e) t1
  t3 ← release_transaction_id cb.transaction_id t2
  some (record { future = cb.promise; transaction_id = none }, t3)
after_send cb fault t = none

-- Both lambdas are stored, and the packet is sent.
unfoldable pub register_and_send :
    Callback → (ℕ → Result (Unit {0})) → Table → Option (AsyncOperation × Table)
register_and_send cb send t = do
  t' ← update_slot cb.tx_index (register cb) t
  after_send cb (send cb.transaction_id) t'

abbrev pub add_promise : Table → Table
add_promise t = record t { promises = t.promises ++ none ∷ [] }

-- startWriteAsyncOperation_ and startReadAsyncOperation_, which differ in the packet they send:
-- `send id` is the result of sendWritePacket_ or sendReadPacket_.
unfoldable pub start_operation :
    List ℕ
    → (Packet → Completion)
    → (ℕ → Result (Unit {0}))
    → Table
    → Option (AsyncOperation × Table)
start_operation times on_complete send t = do
  let promise = length t.promises
  (r, t1) ← get_available times (add_promise t)
  elim r [
    | fault ↦ none
    | err e ↦ do
      t2 ← set_value promise (err e) t1
      some (record { future = promise; transaction_id = none }, t2)
    | ok id ↦
        register_and_send (callback promise id (id - t1.transaction_id_min) on_complete) send t1
  ]

-- The case of poll for a read reply or a write reply.
unfoldable pub handle_reply : Packet → Table → Option (Result (Unit {0}) × Table)
handle_reply packet t =
    if out_of_range packet.transaction_id t
    then some (err (ErrorCode.errc Errc.bad_message), t)
    else do
      let idx = packet.transaction_id - t.transaction_id_min
      s ← get_elem? t.slots idx
      elim s.reply_callback [
        | none ↦ some (ok tt, t)
        | some cb ↦ do t1 ← clear_callbacks idx t; t2 ← call_reply cb packet t1; some (ok tt, t2)
      ]
