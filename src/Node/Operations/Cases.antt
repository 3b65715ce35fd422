-- ===== src/Node/Operations/Cases.antt =====
-- The branches of startWriteAsyncOperation_, startReadAsyncOperation_ and of the replies in poll,
-- on a valid table.
use spw_rmap.Base.{
  ℕ, ◌+◌, ◌-◌, ◌≤◌, ◌<◌, ◌≡◌, refl, ap, ◌∙◌, ◌⊎◌, inl, inr, List, [], ◌∷◌, ◌++◌, true, false, none,
  some, length, get_elem?, set, arith, Bool-cases, get_elem?-in,
}
use spw_rmap.Rmap.{Packet, Result, ok, err, Errc, ErrorCode}
use spw_rmap.Node.Table.{Completion, Slot, Table, free_slot, out_of_range, get_available}
use spw_rmap.Node.Table.Valid.{IsBusy, IsValid}
use spw_rmap.Node.Table.Transitions.{closed, reply_result, set_value-eq, closed-IsValid}
use spw_rmap.Node.Table.Acquire.{taken, AllInTime, Overdue, get_available-cases}
use spw_rmap.Node.Operations.{AsyncOperation, add_promise, start_operation, handle_reply}
use spw_rmap.Node.Operations.Start.{
  IsFresh, settled-IsValid, add_promise-IsValid, add_promise-IsFresh, closed-IsFresh, opened,
  opened-IsValid, register_and_send-ok, register_and_send-err, closed_fresh-IsValid,
}
use spw_rmap.Node.Operations.Outcomes.{
  handle_reply-out_of_range, handle_reply-free, handle_reply-busy,
}

-- The error of `timed_out` for the operation in slot `o.index`.
abbrev pub overdue_closed : (t : Table) (now : ℕ) → Overdue t now → Table
overdue_closed t now o = closed o.index o.busy.cb.promise (err (ErrorCode.errc Errc.timed_out)) t

-- The table from which an operation takes its slot: the table with the new promise, and perhaps
-- one overdue operation failed.
pub record Opening (t : Table) (times : List ℕ) (now : ℕ) : Type 0 where
  pub base : Table
  pub from :
      (base ≡ add_promise t)
      ⊎ ((o : Overdue (add_promise t) now) × (base ≡ overdue_closed (add_promise t) now o))
  pub valid : IsValid base
  pub same_min : base.transaction_id_min ≡ t.transaction_id_min
  pub fresh : IsFresh (length t.promises) base
  pub index : ℕ
  pub since : ℕ
  pub vacant : get_elem? base.slots index ≡ some free_slot
  pub taking :
      get_available times (add_promise t)
      ≡ some (ok (base.transaction_id_min + index), taken index since base)

module _ (t : Table) (v : IsValid t) (now now' : ℕ) (later : List ℕ) where
  abbrev times : List ℕ
  times = now ∷ now' ∷ later

  pub add_promise-Opening :
      Opening t times now
      ⊎ (AllInTime now t.transaction_timeout t.slots
          × (get_available times (add_promise t)
              ≡ some (err (ErrorCode.errc Errc.resource_unavailable_try_again), add_promise t)))
  add_promise-Opening =
      let w = add_promise-IsValid t v in
      let f = add_promise-IsFresh t v in
      elim (get_available-cases (add_promise t) now now' later w) [
        | inl x ↦ inl (record {
          base = add_promise t;
          from = inl refl;
          valid = w;
          same_min = refl;
          fresh = f;
          index = x.index;
          since = x.now;
          vacant = x.vacant;
          taking = x.taking;
        })
        | inr (inl x) ↦ inl (record {
          base = overdue_closed (add_promise t) now x.from;
          from = inr (x.from, refl);
          valid =
              closed-IsValid (add_promise t) x.from.index x.from.slot w x.from.here x.from.busy _;
          same_min = refl;
          fresh =
              closed-IsFresh (add_promise t) w x.from.index (length t.promises) x.from.slot
                x.from.busy _ x.from.here f;
          index = x.takes.index;
          since = x.takes.now;
          vacant = x.takes.vacant;
          taking = x.same ∙ x.takes.taking;
        })
        | inr (inr x) ↦ inr x
      ]

  module _ (on_complete : Packet → Completion) (send : ℕ → Result (Unit {0})) where
    pub start_operation-ok :
        (o : Opening t times now)
        → send (o.base.transaction_id_min + o.index) ≡ ok tt
        → start_operation times on_complete send t
          ≡ some (
            record {
              future = length t.promises;
              transaction_id = some (o.base.transaction_id_min + o.index);
            },
            opened o.base o.valid o.index o.since (length t.promises) on_complete o.vacant o.fresh,
          )
    unfolding start_operation
    start_operation-ok o e =
        let k : o.base.transaction_id_min + o.index - o.base.transaction_id_min ≡ o.index =
          omega arith in
        rw (o.taking, k)
          (register_and_send-ok o.base o.valid o.index o.since (length t.promises) on_complete
            o.vacant o.fresh send e)

    start_operation-err :
        (o : Opening t times now) (e : ErrorCode)
        → send (o.base.transaction_id_min + o.index) ≡ err e
        → start_operation times on_complete send t
          ≡ some (
            record { future = length t.promises; transaction_id = none },
            closed o.index (length t.promises) (err e) o.base,
          )
    unfolding start_operation
    start_operation-err o e h =
        let k : o.base.transaction_id_min + o.index - o.base.transaction_id_min ≡ o.index =
          omega arith in
        rw (o.taking, k)
          (register_and_send-err o.base o.valid o.index o.since (length t.promises) on_complete
            o.vacant o.fresh send e h)

    start_operation-refused :
        get_available times (add_promise t)
          ≡ some (err (ErrorCode.errc Errc.resource_unavailable_try_again), add_promise t)
        → start_operation times on_complete send t
          ≡ some (
            record { future = length t.promises; transaction_id = none },
            record t {
              promises =
                  set
                    (t.promises ++ none ∷ [])
                    (length t.promises)
                    (some (err (ErrorCode.errc Errc.resource_unavailable_try_again)));
            },
          )
    unfolding start_operation
    start_operation-refused e =
        rw
          (
            e,
            set_value-eq (length t.promises)
                (err (ErrorCode.errc Errc.resource_unavailable_try_again)) (add_promise t)
                (add_promise-IsFresh t v).empty,
          )
          refl

    -- A send gives a value or an error.
    abbrev pub Sends : Type 0
    Sends = (id : ℕ) → (send id ≡ ok tt) ⊎ ((e : ErrorCode) × (send id ≡ err e))

    -- The table has no slot to give, or the operation is in its slot, or its send failed.
    abbrev pub StartOutcome : Type 0
    StartOutcome =
        (AllInTime now t.transaction_timeout t.slots
          × (start_operation times on_complete send t
              ≡ some (
                record { future = length t.promises; transaction_id = none },
                record t {
                  promises =
                      set (t.promises ++ none ∷ []) (length t.promises)
                        (some (err (ErrorCode.errc Errc.resource_unavailable_try_again)));
                },
              )))
        ⊎ ((o : Opening t times now) × (((send (o.base.transaction_id_min + o.index) ≡ ok tt)
                × (start_operation times on_complete send t
                    ≡ some (
                      record {
                        future = length t.promises;
                        transaction_id = some (o.base.transaction_id_min + o.index);
                      },
                      opened o.base o.valid o.index o.since (length t.promises) on_complete o.vacant
                          o.fresh,
                    )))
              ⊎ ((e : ErrorCode) × (send (o.base.transaction_id_min + o.index) ≡ err e)
                  × (start_operation times on_complete send t
                      ≡ some (
                        record { future = length t.promises; transaction_id = none },
                        closed o.index (length t.promises) (err e) o.base,
                      )))))

    pub start_operation-cases : Sends → StartOutcome
    start_operation-cases sends = elim add_promise-Opening [
      | inr (a, e) ↦ inl (a, start_operation-refused e)
      | inl o ↦ inr (
        o,
        elim (sends (o.base.transaction_id_min + o.index)) [
          | inl h ↦ inl (h, start_operation-ok o h)
          | inr (e, h) ↦ inr (e, h, start_operation-err o e h)
        ],
      )
    ]

    -- On a valid table an operation starts without an access out of bounds, a failed assertion or a
    -- promise that is set twice, and the table stays valid.
    pub start_operation-IsValid :
        Sends
        → (op : AsyncOperation) × (t' : Table) × (start_operation times on_complete send t
            ≡ some (op, t'))
          × IsValid t'
    start_operation-IsValid sends = elim (start_operation-cases sends) [
      | inl (_, e) ↦ (
        _,
        _,
        e,
        settled-IsValid (add_promise t) _ _ (add_promise-IsValid t v) (add_promise-IsFresh t v),
      )
      | inr (o, inl (_, e)) ↦ (
        _,
        _,
        e,
        opened-IsValid o.base o.valid o.index o.since (length t.promises) on_complete o.vacant
            o.fresh,
      )
      | inr (o, inr (x, _, e)) ↦ (
        _,
        _,
        e,
        closed_fresh-IsValid o.base o.valid o.index o.since (length t.promises) on_complete o.vacant
            o.fresh (err x),
      )
    ]

module _ (t : Table) (v : IsValid t) where
  pub in_bounds :
      (id : ℕ)
      → out_of_range id t ≡ false
      → (id ≡ t.transaction_id_min + (id - t.transaction_id_min))
        × (id - t.transaction_id_min < length t.slots)
  in_bounds id h =
      let low : t.transaction_id_min ≤ id = ground arith in
      let high : id < t.transaction_id_max = ground arith in (omega arith, omega (arith, v.sized))

  -- A reply for slot `i`.
  abbrev ReplyTo : Packet → ℕ → Type 0
  ReplyTo packet i =
      ((get_elem? t.slots i ≡ some free_slot) × (handle_reply packet t ≡ some (ok tt, t)))
      ⊎ ((s : Slot) × (b : IsBusy t i s) × (get_elem? t.slots i ≡ some s)
          × (handle_reply packet t
              ≡ some (ok tt, closed i b.cb.promise (reply_result b.cb packet) t)))

  reply_to :
      (packet : Packet) (i : ℕ)
      → packet.transaction_id ≡ t.transaction_id_min + i
      → (s : Slot) → get_elem? t.slots i ≡ some s
      → ReplyTo packet i
  reply_to packet i e s here = elim (v.states i s here) [
    | inl f ↦ let h = here ∙ ap some f in inl (h, handle_reply-free t v i packet e h)
    | inr b ↦ inr (s, b, here, handle_reply-busy t v i packet e s b here)
  ]

  -- A reply out of range, or for some slot.
  abbrev pub ReplyOutcome : Packet → Type 0
  ReplyOutcome packet =
      ((out_of_range packet.transaction_id t ≡ true)
        × (handle_reply packet t ≡ some (err (ErrorCode.errc Errc.bad_message), t)))
      ⊎ ((i : ℕ) × (packet.transaction_id ≡ t.transaction_id_min + i) × ReplyTo packet i)

  -- The branches of a reply on a valid table: out of the range of identifiers it is refused, for a
  -- free slot it changes nothing, and for a slot in use it gives the promise of the slot's operation
  -- its result and frees the slot.
  pub handle_reply-cases : (packet : Packet) → ReplyOutcome packet
  handle_reply-cases packet = elim (Bool-cases (out_of_range packet.transaction_id t)) [
    | inl h ↦ inl (h, handle_reply-out_of_range t v packet h)
    | inr h ↦
        let (e, inside) = in_bounds packet.transaction_id h in
        let (s, here) = get_elem?-in t.slots _ inside in inr (_, e, reply_to packet _ e s here)
  ]

  -- On a valid table a reply is handled without an access out of bounds, a failed assertion or a
  -- promise that is set twice, and the table stays valid.
  pub handle_reply-IsValid :
      (packet : Packet)
      → (r : Result (Unit {0})) × (t' : Table) × (handle_reply packet t ≡ some (r, t')) × IsValid t'
  handle_reply-IsValid packet = elim (handle_reply-cases packet) [
    | inl (_, e) ↦ (_, _, e, v)
    | inr (_, _, inl (_, e)) ↦ (_, _, e, v)
    | inr (i, _, inr (s, b, here, e)) ↦ (_, _, e, closed-IsValid t i s v here b _)
  ]
