-- ===== src/Node/Tests.antt =====
-- The node's theorems on a table of two identifiers.
use spw_rmap.Base.{ℕ, ◌≡◌, refl, ◌⊎◌, List, [], ◌∷◌, Option, none, some, get_elem?, ◌+◌, ◌<◌, arith}
use spw_rmap.Rmap.{Packet, empty_packet, Result, ok, err, Errc, ErrorCode}
use spw_rmap.Node.Table.{
  Callback, Completion, completes, Table, free_slot, new_table, scan, get_available, set_value,
  release_transaction_id, complete, call_reply,
}
use spw_rmap.Node.Table.Valid.{IsValid, busy_slot}
use spw_rmap.Node.Operations.{
  AsyncOperation, callback, start_operation, handle_reply, register_and_send, after_send,
  add_promise,
}
use spw_rmap.Node.Operations.Start.{add_promise-IsValid, add_promise-IsFresh, opened-IsValid}
use spw_rmap.Node.Operations.Cases.{ReplyOutcome, handle_reply-cases}
use spw_rmap.Node.Run.{Event, start, cancel, reply, send_result, run, run_event}
use spw_rmap.Node.Run.Laws.{
  new_table-IsValid, run-new_table, handle_reply-twice, handle_reply-start_operation,
  start_operation-own_id, HoldsOverdue,
}
use spw_rmap.Node.Retry.{
  Attempt, synchronous, future_value, finish_read, copy_n, is_answer, copy_event, run_copying,
  read_loop, read,
}
use spw_rmap.Node.Retry.Laws.{synchronous-IsValid}
use spw_rmap.Node.Retry.Reading.{Reads, read-IsValid}
use spw_rmap.Node.Retry.Unanswered.{synchronous-unanswered}

abbrev pub two_free : Table
two_free = new_table 32 34

pub two_free-IsValid : IsValid two_free
two_free-IsValid = new_table-IsValid 32 34 (omega arith) (omega arith)

abbrev pub accept : Packet → Completion
accept packet = completes

abbrev pub sent : ℕ → Option ErrorCode
sent id = none

abbrev reply_32 : Packet
reply_32 = record empty_packet { transaction_id = 32 }

abbrev first_callback : Callback
first_callback = callback 0 32 0 accept

abbrev pub one_busy : Table
one_busy = record {
  transaction_id_min = 32;
  transaction_id_max = 34;
  transaction_timeout = 1000;
  slots = busy_slot 5 first_callback ∷ free_slot ∷ [];
  promises = none ∷ [];
}

abbrev answered : Table
answered = record one_busy { slots = free_slot ∷ free_slot ∷ []; promises = some (ok tt) ∷ [] }

abbrev pub first_operation : AsyncOperation
first_operation = record { future = 0; transaction_id = some 32 }

pub one_busy-eq :
    start_operation (5 ∷ 6 ∷ []) accept (send_result sent) two_free
    ≡ some (first_operation, one_busy)
unfolding start_operation new_table get_available scan register_and_send after_send
one_busy-eq = refl

answered-eq : handle_reply reply_32 one_busy ≡ some (ok tt, answered)
unfolding handle_reply call_reply complete set_value release_transaction_id
answered-eq = refl

one_busy-IsValid : IsValid one_busy
unfolding new_table
one_busy-IsValid =
    opened-IsValid (add_promise two_free) (add_promise-IsValid two_free two_free-IsValid) 0 5 0
      accept refl (add_promise-IsFresh two_free two_free-IsValid)

abbrev events : List Event
events =
    start 5 6 accept sent
    ∷ start 7 8 accept (λ id. some (ErrorCode.errc Errc.not_connected))
    ∷ reply reply_32
    ∷ cancel 33
    ∷ []

run-new_table_example : (t : Table) × (run events (new_table 32 34) ≡ some t) × IsValid t
run-new_table_example = run-new_table 32 34 events (omega arith) (omega arith)

handle_reply-cases_example : ReplyOutcome one_busy one_busy-IsValid reply_32
handle_reply-cases_example = handle_reply-cases one_busy one_busy-IsValid reply_32

handle_reply-twice_example : handle_reply reply_32 answered ≡ some (ok tt, answered)
handle_reply-twice_example =
    handle_reply-twice one_busy answered (ok tt) reply_32 one_busy-IsValid answered-eq

handle_reply-start_operation_example :
    (t2 : Table) × (handle_reply reply_32 one_busy ≡ some (ok tt, t2))
    × (get_elem? t2.promises 0 ≡ some (some (ok tt)))
handle_reply-start_operation_example =
    handle_reply-start_operation two_free one_busy first_operation 32 5 6 [] accept sent reply_32
      two_free-IsValid one_busy-eq refl refl

start_operation-own_id_example :
    (i : ℕ) × (32 ≡ 32 + i)
    × (32 < 34)
    × ((get_elem? two_free.slots i ≡ some free_slot) ⊎ HoldsOverdue two_free 5 i)
unfolding new_table
start_operation-own_id_example =
    start_operation-own_id two_free one_busy first_operation 32 5 6 [] accept sent two_free-IsValid
      one_busy-eq refl

abbrev answered_attempt : ℕ → Attempt
answered_attempt k = record { now = 5; now' = 6; send = sent; others = reply reply_32 ∷ [] }

abbrev silent_attempt : ℕ → Attempt
silent_attempt k = record { now = 5; now' = 6; send = sent; others = [] }

synchronous-IsValid_example :
    (r : Result (Unit {0})) × (t : Table) × (synchronous accept answered_attempt 3 two_free
      ≡ some (r, t))
    × IsValid t
synchronous-IsValid_example =
    synchronous-IsValid accept answered_attempt 3 two_free two_free-IsValid

synchronous-unanswered_example :
    ((t : Table) × (synchronous accept silent_attempt 3 two_free
        ≡ some (err (ErrorCode.errc Errc.timed_out), t))
      × (t.slots ≡ two_free.slots))
    × ((t : Table) × (read silent_attempt 3 (0 ∷ 0 ∷ []) two_free
          ≡ some (err (ErrorCode.errc Errc.timed_out), 0 ∷ 0 ∷ [], t))
        × (t.slots ≡ two_free.slots))
unfolding new_table
synchronous-unanswered_example =
    synchronous-unanswered accept silent_attempt 3 0 (0 ∷ 0 ∷ []) two_free (λ k. (refl, λ id. refl))
      two_free-IsValid refl

abbrev data_attempt : ℕ → Attempt
data_attempt k = record {
  now = 5;
  now' = 6;
  send = sent;
  others = reply (record reply_32 { payload = 7 ∷ 8 ∷ 9 ∷ [] }) ∷ [];
}

read-IsValid_example : Reads data_attempt (0 ∷ 0 ∷ []) (read data_attempt 3 (0 ∷ 0 ∷ []) two_free)
read-IsValid_example =
    read-IsValid data_attempt 3 (0 ∷ 0 ∷ []) two_free two_free-IsValid (λ k. (omega arith, tt))

-- The span gets the first bytes of the reply's data.
read_data : read data_attempt 3 (0 ∷ 0 ∷ []) two_free ≡ some (ok tt, 7 ∷ 8 ∷ [], answered)
unfolding read read_loop run_copying copy_event copy_n is_answer finish_read future_value
    start_operation new_table get_available scan register_and_send after_send handle_reply
    call_reply complete set_value release_transaction_id run_event
read_data = refl

-- A reply with less data than the span has bytes.
read_short : read answered_attempt 3 (0 ∷ 0 ∷ []) two_free ≡ none
unfolding read read_loop run_copying copy_event copy_n is_answer finish_read future_value
    start_operation new_table get_available scan register_and_send after_send
read_short = refl
