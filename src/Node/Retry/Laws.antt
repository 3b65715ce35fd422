-- ===== src/Node/Retry/Laws.antt =====
-- What the synchronous operations do to a valid table.
use spw_rmap.Base.{
  ℕ, zero, suc, ◌+◌, ◌<◌, ◌≡◌, refl, ap, ◌∙◌, inl, inr, [], ◌∷◌, true, false, Option, none, some,
  length, get_elem?, arith, if◌then◌else◌, ◌==◌, length-set, set-set, set-get_elem?, get_elem?-lt,
  Option-cases,
}
use spw_rmap.Rmap.{Packet, Result, ok, err, Errc, ErrorCode}
use spw_rmap.Node.Table.{Completion, Table, free_slot, ◌>>=◌}
use spw_rmap.Node.Table.Valid.{IsValid, busy_slot}
use spw_rmap.Node.Table.Transitions.{freed}
use spw_rmap.Node.Operations.{AsyncOperation, start_operation, add_promise}
use spw_rmap.Node.Operations.Cases.{
  Opening, add_promise-Opening, start_operation-ok, start_operation-IsValid,
}
use spw_rmap.Node.Operations.Outcomes.{cancel_transaction-freed}
use spw_rmap.Node.Operations.Start.{opened, opener, opened-IsValid, add_promise-IsValid}
use spw_rmap.Node.Run.{send_result, run}
use spw_rmap.Node.Run.Laws.{run-IsValid, send_result-Sends, cancel_transaction-IsValid}
use spw_rmap.Node.Retry.{
  future_value, cancel_if_started, Attempt, finish_attempt, attempt_loop, synchronous,
}

pub cancel_if_started-IsValid :
    (o : Option ℕ) (p : ℕ) (t : Table)
    → IsValid t
    → (t' : Table) × (cancel_if_started (record { future = p; transaction_id = o }) t ≡ some t')
      × IsValid t'
cancel_if_started-IsValid none p t v = (t, refl, v)
cancel_if_started-IsValid (some id) p t v = cancel_transaction-IsValid t id v

module _ (on_complete : Packet → Completion) (around : ℕ → Attempt) where
  module _ (n k : ℕ) (t t1 t2 : Table) (op : AsyncOperation)
      (starts : start_operation
          ((around k).now ∷ (around k).now' ∷ [])
          on_complete
          (send_result (around k).send)
          t
        ≡ some (op, t1))
      (runs : run (around k).others t1 ≡ some t2) where
    attempt_loop-ready :
        (r : Result (Unit {0}))
        → future_value op.future t2 ≡ some r
        → attempt_loop on_complete around (suc n) k t ≡ some (r, t2)
    unfolding attempt_loop finish_attempt
    attempt_loop-ready r h =
        rw (starts, runs)
          (ap (λ x. finish_attempt (attempt_loop on_complete around n (suc k)) op x t2) h)

    attempt_loop-unready :
        (t3 : Table)
        → future_value op.future t2 ≡ none
        → cancel_if_started op t2 ≡ some t3
        → attempt_loop on_complete around (suc n) k t ≡ attempt_loop on_complete around n (suc k) t3
    unfolding attempt_loop finish_attempt
    attempt_loop-unready t3 h c =
        rw (starts, runs)
          (ap (λ x. finish_attempt (attempt_loop on_complete around n (suc k)) op x t2) h
            ∙ ap (λ x. x >>= attempt_loop on_complete around n (suc k)) c)

  attempt_loop-IsValid :
      (n k : ℕ) (t : Table)
      → IsValid t
      → (r : Result (Unit {0})) × (t' : Table) × (attempt_loop on_complete around n k t
          ≡ some (r, t'))
        × IsValid t'
  unfolding attempt_loop
  attempt_loop-IsValid zero k t v = (_, t, refl, v)
  attempt_loop-IsValid (suc n) k t v =
      let a = around k in
      let (op, t1, e, w) =
        start_operation-IsValid t v a.now a.now' [] on_complete (send_result a.send)
          (send_result-Sends a.send) in
      let (t2, e2, w2) = run-IsValid a.others t1 w in
      elim (Option-cases (future_value op.future t2)) [
        | inr (r, h) ↦ (r, t2, attempt_loop-ready n k t t1 t2 op e e2 r h, w2)
        | inl h ↦
            let (t3, e3, w3) = cancel_if_started-IsValid op.transaction_id op.future t2 w2 in
            let (r, t', e', w') = attempt_loop-IsValid n (suc k) t3 w3 in
            (r, t', attempt_loop-unready n k t t1 t2 op e e2 t3 h e3 ∙ e', w')
      ]

  -- write ends, with a result, on a valid table and whatever the other threads do in starts,
  -- cancellations and replies while it waits: nothing gets out of a vector's bounds, fails an
  -- assertion or sets a promise twice, and the table is valid again. Its lambda may be any that
  -- returns or throws.
  pub synchronous-IsValid :
      (retry_count : ℕ) (t : Table)
      → IsValid t
      → (r : Result (Unit {0})) × (t' : Table) × (synchronous on_complete around retry_count t
          ≡ some (r, t'))
        × IsValid t'
  unfolding synchronous
  synchronous-IsValid retry_count t v =
      attempt_loop-IsValid (if retry_count == 0 then 1 else retry_count) 0 t v

  -- No other thread does anything, and each send succeeds.
  abbrev pub IsUnanswered : Type 0
  IsUnanswered = (k : ℕ) → ((around k).others ≡ []) × ((id : ℕ) → (around k).send id ≡ none)

  no_others : (k : ℕ) (t : Table) → IsUnanswered → run (around k).others t ≡ some t
  unfolding run
  no_others k t u = rw (u k).0 refl

  sends : (k id : ℕ) → IsUnanswered → send_result (around k).send id ≡ ok tt
  sends k id u = rw (send_result, (u k).1 id) refl

  -- An attempt that opens its slot and is not answered.
  unanswered_attempt :
      (n k : ℕ) (t : Table) (v : IsValid t)
      → IsUnanswered
      → (o : Opening t ((around k).now ∷ (around k).now' ∷ []) (around k).now)
      → attempt_loop on_complete around (suc n) k t
        ≡ attempt_loop on_complete around n (suc k) o.base
  unfolding future_value
  unanswered_attempt n k t v u o =
      attempt_loop-unready n k t after after _
        (start_operation-ok t v (around k).now (around k).now' [] on_complete
          (send_result (around k).send) o (sends k (o.base.transaction_id_min + o.index) u))
        (no_others k after u) o.base (rw (future_value, o.fresh.empty) refl)
        (cancel_transaction-freed after
            (opened-IsValid o.base o.valid o.index o.since (length t.promises) on_complete o.vacant
              o.fresh)
            o.index inside
          ∙ ap some given_up)
    where
      after : Table
      after = opened o.base o.valid o.index o.since (length t.promises) on_complete o.vacant o.fresh

      inside : o.index < length after.slots
      inside = omega (
        arith,
        get_elem?-lt o.base.slots o.index free_slot o.vacant,
        length-set o.base.slots o.index (
            busy_slot o.since (
              opener o.base o.valid o.index o.since (length t.promises) on_complete o.vacant
                o.fresh)),
      )

      given_up : freed o.index after ≡ o.base
      given_up =
          rw
            (
              set-set o.base.slots o.index
                  (busy_slot o.since (
                    opener o.base o.valid o.index o.since (length t.promises) on_complete o.vacant
                      o.fresh))
                  free_slot,
              set-get_elem? o.base.slots o.index free_slot o.vacant,
            )
            refl

  vacant-Opening :
      (k i : ℕ) (t : Table) (v : IsValid t)
      → get_elem? t.slots i ≡ some free_slot
      → (o : Opening t ((around k).now ∷ (around k).now' ∷ []) (around k).now) × (o.base
          ≡ add_promise t)
  vacant-Opening k i t v f = elim (add_promise-Opening t v (around k).now (around k).now' []) [
    | inr (a, _) ↦ absurd (let q : true ≡ false = (a i free_slot f).0 in cc)
    | inl o ↦ elim o.from [
      | inl e ↦ (o, e)
      | inr (w, _) ↦ absurd (let q : true ≡ false = w.all_taken i free_slot f in cc)
    ]
  ]

  -- With a free slot and no answers the attempts end in `timed_out`, with each slot as it was.
  pub attempt_loop-unanswered :
      (n k i : ℕ) (t : Table)
      → IsUnanswered
      → IsValid t
      → get_elem? t.slots i ≡ some free_slot
      → (t' : Table) × (attempt_loop on_complete around n k t
          ≡ some (err (ErrorCode.errc Errc.timed_out), t'))
        × (t'.slots ≡ t.slots)
  unfolding attempt_loop
  attempt_loop-unanswered zero k i t u v f = (t, refl, refl)
  attempt_loop-unanswered (suc n) k i t u v f =
      let (o, b) = vacant-Opening k i t v f in
      let (t', e, h) =
        attempt_loop-unanswered n (suc k) i (add_promise t) u (add_promise-IsValid t v) f in
      (t', unanswered_attempt n k t v u o ∙ ap (attempt_loop on_complete around n (suc k)) b ∙ e, h)
