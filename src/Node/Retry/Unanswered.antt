-- ===== src/Node/Retry/Unanswered.antt =====
-- write and read without answers.
use spw_rmap.Base.{
  ℕ, zero, suc, ◌≡◌, refl, ap, ◌∙◌, List, [], Option, none, some, get_elem?, if◌then◌else◌, ◌==◌,
}
use spw_rmap.Rmap.{Packet, Result, err, Errc, ErrorCode}
use spw_rmap.Node.Table.{Completion, completes, Table, free_slot, ◌>>=◌}
use spw_rmap.Node.Table.Valid.{IsValid}
use spw_rmap.Node.Operations.{AsyncOperation}
use spw_rmap.Node.Run.{run}
use spw_rmap.Node.Retry.{
  future_value, cancel_if_started, Attempt, ReadResult, finish_attempt, attempt_loop, synchronous,
  run_copying, finish_read, read_loop, read,
}
use spw_rmap.Node.Retry.Laws.{IsUnanswered, attempt_loop-unanswered}

-- A result with the span of a read.
abbrev with_span : List ℕ → Option (Result (Unit {0}) × Table) → ReadResult
with_span bytes none = none
with_span bytes (some (x, t)) = some (x, bytes, t)

cancelled-with_span :
    (next : Table → ReadResult) (next' : Table → Option (Result (Unit {0}) × Table))
    (bytes : List ℕ) (o : Option Table)
    → ((t : Table) → next t ≡ with_span bytes (next' t))
    → o >>= next ≡ with_span bytes (o >>= next')
cancelled-with_span next next' bytes none h = refl
cancelled-with_span next next' bytes (some t) h = h t

finish_read-with_span :
    (next : Table → ReadResult) (next' : Table → Option (Result (Unit {0}) × Table))
    (op : AsyncOperation) (x : Option (Result (Unit {0}))) (bytes : List ℕ) (t : Table)
    → ((t : Table) → next t ≡ with_span bytes (next' t))
    → finish_read next op x bytes t ≡ with_span bytes (finish_attempt next' op x t)
unfolding finish_read finish_attempt
finish_read-with_span next next' op (some r) bytes t h = refl
finish_read-with_span next next' op none bytes t h =
    cancelled-with_span next next' bytes (cancel_if_started op t) h

started-with_span :
    (next : Table → ReadResult) (next' : Table → Option (Result (Unit {0}) × Table))
    (bytes : List ℕ) (o : Option (AsyncOperation × Table))
    → ((t : Table) → next t ≡ with_span bytes (next' t))
    → (o >>= λ (op, t1). finish_read next op (future_value op.future t1) bytes t1)
      ≡ with_span bytes (o >>= λ (op, t1). finish_attempt next' op (future_value op.future t1) t1)
started-with_span next next' bytes none h = refl
started-with_span next next' bytes (some (op, t)) h =
    finish_read-with_span next next' op (future_value op.future t) bytes t h

-- Without other threads read does what write does, and leaves its span.
read_loop-with_span :
    (around : ℕ → Attempt) (n k : ℕ) (bytes : List ℕ) (t : Table)
    → ((j : ℕ) → (around j).others ≡ [])
    → read_loop around n k bytes t ≡ with_span bytes (attempt_loop (λ _. completes) around n k t)
unfolding read_loop attempt_loop run_copying run
read_loop-with_span around zero k bytes t u = refl
read_loop-with_span around (suc n) k bytes t u =
    rw (u k) (started-with_span _ _ bytes _ (λ t2. read_loop-with_span around n (suc k) bytes t2 u))

-- When a slot is free, each send succeeds and no other thread does anything, write, with any lambda
-- that returns or throws, and read give `timed_out`, and each slot is as it was: no identifier stays
-- in use. The span of read is as it was too.
pub synchronous-unanswered :
    (on_complete : Packet → Completion) (around : ℕ → Attempt) (retry_count i : ℕ) (bytes : List ℕ)
    (t : Table)
    → IsUnanswered on_complete around
    → IsValid t
    → get_elem? t.slots i ≡ some free_slot
    → ((t' : Table) × (synchronous on_complete around retry_count t
          ≡ some (err (ErrorCode.errc Errc.timed_out), t'))
        × (t'.slots ≡ t.slots))
      × ((t' : Table) × (read around retry_count bytes t
            ≡ some (err (ErrorCode.errc Errc.timed_out), bytes, t'))
          × (t'.slots ≡ t.slots))
unfolding synchronous read
synchronous-unanswered on_complete around retry_count i bytes t u v f =
    let n = if retry_count == 0 then 1 else retry_count in
    let (t', e, h) = attempt_loop-unanswered (λ _. completes) around n 0 i t u v f in
    (
      attempt_loop-unanswered on_complete around n 0 i t u v f,
      (t', read_loop-with_span around n 0 bytes t (λ j. (u j).0) ∙ ap (with_span bytes) e, h),
    )
