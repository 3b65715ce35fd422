-- ===== src/Node/Retry/Reading.antt =====
-- What read does to a valid table and to its span.
use spw_rmap.Base.{
  ℕ, zero, suc, ◌≤◌, ◌≡◌, refl, ap, ◌∙◌, sym, subst, inl, inr, Bool-cases, All, List, [], ◌∷◌,
  Option, none, some, length, take, length-take, le→ltb, if◌then◌else◌, ◌==◌, arith, Option-cases,
}
use spw_rmap.Rmap.{Packet, Result}
use spw_rmap.Node.Table.{completes, Table, ◌>>=◌}
use spw_rmap.Node.Table.Valid.{IsValid}
use spw_rmap.Node.Operations.{AsyncOperation, start_operation}
use spw_rmap.Node.Operations.Cases.{start_operation-IsValid}
use spw_rmap.Node.Run.{Event, start, cancel, reply, send_result}
use spw_rmap.Node.Run.Laws.{run_event-IsValid, send_result-Sends}
use spw_rmap.Node.Retry.{
  future_value, cancel_if_started, Attempt, ReadResult, copy_n, is_answer, copy_event, run_copying,
  finish_read, read_loop, read,
}
use spw_rmap.Node.Retry.Laws.{cancel_if_started-IsValid}

-- A reply with `n` bytes of data at least, or another event.
abbrev pub Carries : ℕ → Event → Type 0
Carries n (start now now' on_complete send) = Unit {0}
Carries n (cancel id) = Unit {0}
Carries n (reply packet) = n ≤ length packet.payload

copy_n-enough :
    (packet : Packet) (bytes : List ℕ)
    → length bytes ≤ length packet.payload
    → copy_n packet bytes ≡ some (take (length bytes) packet.payload)
unfolding copy_n
copy_n-enough packet bytes h = rw (le→ltb _ _ h) refl

-- A span of the same size.
abbrev Copied : List ℕ → Option (List ℕ) → Type 0
Copied bytes o = (bytes' : List ℕ) × (o ≡ some bytes') × (length bytes' ≡ length bytes)

copy_event-Copied :
    (p : ℕ) (e : Event) (t : Table) (bytes : List ℕ)
    → Carries (length bytes) e
    → Copied bytes (copy_event p e t bytes)
unfolding copy_event
copy_event-Copied p (start now now' on_complete send) t bytes h = (bytes, refl, refl)
copy_event-Copied p (cancel id) t bytes h = (bytes, refl, refl)
copy_event-Copied p (reply packet) t bytes h = elim (Bool-cases (is_answer p packet t)) [
  | inl e ↦ (
    take (length bytes) packet.payload,
    rw e (copy_n-enough packet bytes h),
    omega (arith, length-take (length bytes) packet.payload),
  )
  | inr e ↦ (bytes, rw e refl, refl)
]

run_copying-IsValid :
    (p : ℕ) (es : List Event) (bytes : List ℕ) (t : Table)
    → IsValid t
    → All (Carries (length bytes)) es
    → (bytes' : List ℕ) × (t' : Table) × (run_copying p es bytes t ≡ some (bytes', t'))
      × IsValid t'
      × (length bytes' ≡ length bytes)
unfolding run_copying
run_copying-IsValid p [] bytes t v h = (bytes, t, refl, v, refl)
run_copying-IsValid p (e ∷ es) bytes t v h =
    let (b1, q, l) = copy_event-Copied p e t bytes h.0 in
    let (t1, q1, v1) = run_event-IsValid e t v in
    let (b2, t2, q2, v2, l2) =
      run_copying-IsValid p es b1 t1 v1 (subst (λ n. All (Carries n) es) (sym l) h.1) in
    (b2, t2, rw (q, q1) q2, v2, l2 ∙ l)

module _ (around : ℕ → Attempt) where
  module _ (n k : ℕ) (bytes bytes' : List ℕ) (t t1 t2 : Table) (op : AsyncOperation)
      (starts : start_operation
          ((around k).now ∷ (around k).now' ∷ [])
          (λ _. completes)
          (send_result (around k).send)
          t
        ≡ some (op, t1))
      (runs : run_copying op.future (around k).others bytes t1 ≡ some (bytes', t2)) where
    read_loop-ready :
        (r : Result (Unit {0}))
        → future_value op.future t2 ≡ some r
        → read_loop around (suc n) k bytes t ≡ some (r, bytes', t2)
    unfolding read_loop finish_read
    read_loop-ready r h =
        rw (starts, runs)
          (ap (λ x. finish_read (read_loop around n (suc k) bytes') op x bytes' t2) h)

    read_loop-unready :
        (t3 : Table)
        → future_value op.future t2 ≡ none
        → cancel_if_started op t2 ≡ some t3
        → read_loop around (suc n) k bytes t ≡ read_loop around n (suc k) bytes' t3
    unfolding read_loop finish_read
    read_loop-unready t3 h c =
        rw (starts, runs)
          (ap (λ x. finish_read (read_loop around n (suc k) bytes') op x bytes' t2) h
            ∙ ap (λ x. x >>= read_loop around n (suc k) bytes') c)

  -- A read that ended.
  abbrev pub Reads : List ℕ → ReadResult → Type 0
  Reads bytes o =
      (r : Result (Unit {0})) × (bytes' : List ℕ) × (t' : Table) × (o ≡ some (r, bytes', t'))
      × IsValid t'
      × (length bytes' ≡ length bytes)

  read_loop-IsValid :
      (n k : ℕ) (bytes : List ℕ) (t : Table)
      → IsValid t
      → ((j : ℕ) → All (Carries (length bytes)) (around j).others)
      → Reads bytes (read_loop around n k bytes t)
  unfolding read_loop
  read_loop-IsValid zero k bytes t v h = (_, bytes, t, refl, v, refl)
  read_loop-IsValid (suc n) k bytes t v h =
      let a = around k in
      let (op, t1, e, w) =
        start_operation-IsValid t v a.now a.now' [] (λ _. completes) (send_result a.send)
          (send_result-Sends a.send) in
      let (b2, t2, e2, w2, l) = run_copying-IsValid op.future a.others bytes t1 w (h k) in
      elim (Option-cases (future_value op.future t2)) [
        | inr (r, q) ↦ (r, b2, t2, read_loop-ready n k bytes b2 t t1 t2 op e e2 r q, w2, l)
        | inl q ↦
            let (t3, e3, w3) = cancel_if_started-IsValid op.transaction_id op.future t2 w2 in
            let (r, b', t', e', w', l') =
              read_loop-IsValid n (suc k) b2 t3 w3
                (λ j. subst (λ m. All (Carries m) (around j).others) (sym l) (h j)) in
            (r, b', t', read_loop-unready n k bytes b2 t t1 t2 op e e2 t3 q e3 ∙ e', w', l' ∙ l)
      ]

  -- read ends, with a result, on a valid table and whatever the other threads do in starts,
  -- cancellations and replies while it waits, where no reply brings less data than its span has
  -- bytes: nothing gets out of a vector's bounds, of the span or of a packet's data, fails an
  -- assertion or sets a promise twice, the table is valid again, and the span has its size.
  pub read-IsValid :
      (retry_count : ℕ) (bytes : List ℕ) (t : Table)
      → IsValid t
      → ((k : ℕ) → All (Carries (length bytes)) (around k).others)
      → Reads bytes (read around retry_count bytes t)
  unfolding read
  read-IsValid retry_count bytes t v h =
      read_loop-IsValid (if retry_count == 0 then 1 else retry_count) 0 bytes t v h
