-- ===== src/Node/Run/Laws.antt =====
-- What holds of any sequence of starts, cancellations and replies.
use spw_rmap.Base.{
  ℕ, ◌+◌, ◌^◌, ◌≤◌, ◌<◌, ◌≡◌, refl, sym, ap, ◌∙◌, subst, ◌⊎◌, inl, inr, List, [], ◌∷◌, Option, none,
  some, length, get_elem?, set, arith, Bool-cases, get_elem?-in, get_elem?-set_self,
  get_elem?-set_ne, get_elem?-lt, Option-cases, length-replicate, get_elem?-replicate, length-set,
}
use spw_rmap.Rmap.{Packet, Result, ok, err, ErrorCode}
use spw_rmap.Node.Table.{Completion, Slot, Table, free_slot, out_of_range, new_table}
use spw_rmap.Node.Table.Valid.{owner, IsValid, ℕ-cases}
use spw_rmap.Node.Table.Transitions.{completion_result, closed-IsValid, freed-IsValid}
use spw_rmap.Node.Operations.{AsyncOperation, start_operation, cancel_transaction, handle_reply}
use spw_rmap.Node.Operations.Outcomes.{
  cancel_transaction-freed, handle_reply-free, handle_reply-busy,
}
use spw_rmap.Node.Operations.Start.{opened, opened-IsValid, opened-IsBusy, opened-get_elem?}
use spw_rmap.Node.Operations.Cases.{
  Opening, in_bounds, start_operation-cases, start_operation-IsValid, handle_reply-cases,
  handle_reply-IsValid,
}
use spw_rmap.Node.Run.{Event, start, cancel, reply, send_result, run_event, run}

pub new_table-IsValid : (min max : ℕ) → min ≤ max → max < 2 ^ 16 → IsValid (new_table min max)
unfolding new_table
new_table-IsValid min max h k = record {
  ordered = h;
  narrow = k;
  sized = length-replicate _ free_slot ∙ omega arith;
  states = λ i s e. inl (get_elem?-replicate _ i free_slot s e);
  distinct = λ i j p s s' e _ o _.
      let q : none ≡ some p = sym (ap owner (get_elem?-replicate _ i free_slot s e)) ∙ o in cc;
}

pub send_result-Sends :
    (send : ℕ → Option ErrorCode) (id : ℕ)
    → (send_result send id ≡ ok tt) ⊎ ((e : ErrorCode) × (send_result send id ≡ err e))
send_result-Sends send id = elim (Option-cases (send id)) [
  | inl e ↦ inl (rw (send_result, e) refl)
  | inr (x, e) ↦ inr (x, rw (send_result, e) refl)
]

pub cancel_transaction-IsValid :
    (t : Table) (id : ℕ)
    → IsValid t
    → (t' : Table) × (cancel_transaction id t ≡ some t') × IsValid t'
unfolding cancel_transaction
cancel_transaction-IsValid t id v = elim (Bool-cases (out_of_range id t)) [
  | inl h ↦ (t, rw h refl, v)
  | inr h ↦
      let (e, inside) = in_bounds t v id h in
      let (s, here) = get_elem?-in t.slots _ inside in
      (
        _,
        ap (λ x. cancel_transaction x t) e ∙ cancel_transaction-freed t v _ inside,
        freed-IsValid t _ s v here,
      )
]

pub run_event-IsValid :
    (e : Event) (t : Table) → IsValid t → (t' : Table) × (run_event e t ≡ some t') × IsValid t'
unfolding run_event
run_event-IsValid (start now now' on_complete send) t v =
    let (op, t', e, w) =
      start_operation-IsValid t v now now' [] on_complete (send_result send)
        (send_result-Sends send) in
    (t', rw e refl, w)
run_event-IsValid (cancel id) t v = cancel_transaction-IsValid t id v
run_event-IsValid (reply packet) t v =
    let (r, t', e, w) = handle_reply-IsValid t v packet in (t', rw e refl, w)

pub run-IsValid :
    (es : List Event) (t : Table) → IsValid t → (t' : Table) × (run es t ≡ some t') × IsValid t'
unfolding run
run-IsValid [] t v = (t, refl, v)
run-IsValid (e ∷ es) t v =
    let (t1, h, w) = run_event-IsValid e t v in
    let (t2, h', w') = run-IsValid es t1 w in (t2, rw h h', w')

-- From the constructor on, with a range of identifiers in order, no sequence of starts,
-- cancellations and replies gets out of a vector's bounds, fails an assertion or sets a promise
-- twice; and then each slot is free or belongs to one operation, with a promise of its own that is
-- still empty.
pub run-new_table :
    (min max : ℕ) (es : List Event)
    → min ≤ max
    → max < 2 ^ 16
    → (t : Table) × (run es (new_table min max) ≡ some t) × IsValid t
run-new_table min max es h k = run-IsValid es (new_table min max) (new_table-IsValid min max h k)

-- Two results of the same call are one.
one_result :
    {A : Type 0} {o : Option A} (P : A → Type 0) (x y : A) → o ≡ some x → o ≡ some y → P x → P y
one_result P x y e h p = let q : x ≡ y = cc in subst P q p

-- On a valid table a second reply with the same identifier changes nothing: if the first call gives
-- a result and a table, the call on that table gives both again.
pub handle_reply-twice :
    (t t' : Table) (r : Result (Unit {0})) (packet : Packet)
    → IsValid t
    → handle_reply packet t ≡ some (r, t')
    → handle_reply packet t' ≡ some (r, t')
handle_reply-twice t t' r packet v e = elim (handle_reply-cases t v packet) [
  | inl (_, h) ↦ one_result Fixed _ (r, t') h e h
  | inr (_, _, inl (_, h)) ↦ one_result Fixed _ (r, t') h e h
  | inr (i, id, inr (s, b, here, h)) ↦
      one_result Fixed _ (r, t') h e
        (handle_reply-free _ (closed-IsValid t i s v here b _) i packet id
          (get_elem?-set_self t.slots i free_slot (get_elem?-lt t.slots i s here)))
]
  where
    Fixed : Result (Unit {0}) × Table → Type 0
    Fixed x = handle_reply packet x.1 ≡ some x

-- An operation that was started on a valid table, and has its identifier, is ended by a reply with
-- this identifier: its future then has a value, or operation_canceled if the callback throws.
pub handle_reply-start_operation :
    (t t1 : Table) (op : AsyncOperation) (id now now' : ℕ) (later : List ℕ)
    (on_complete : Packet → Completion) (send : ℕ → Option ErrorCode) (packet : Packet)
    → IsValid t
    → start_operation (now ∷ now' ∷ later) on_complete (send_result send) t ≡ some (op, t1)
    → op.transaction_id ≡ some id
    → packet.transaction_id ≡ id
    → (t2 : Table) × (handle_reply packet t1 ≡ some (ok tt, t2))
      × (get_elem? t2.promises op.future ≡ some (some (completion_result (on_complete packet))))
handle_reply-start_operation t t1 op id now now' later on_complete send packet v e has_id same_id =
    elim (start_operation-cases t v now now' later on_complete (send_result send)
      (send_result-Sends send)) [
        | inl (_, h) ↦ one_result Answered _ (op, t1) h e (λ i k. cc) id has_id same_id
        | inr (o, inr (_, _, h)) ↦ one_result Answered _ (op, t1) h e (λ i k. cc) id has_id same_id
        | inr (o, inl (_, h)) ↦
            one_result Answered _ (op, t1) h e
              (λ i k m.
                let q : o.base.transaction_id_min + o.index ≡ i = cc in
                let n = length t.promises in
                (
                  _,
                  handle_reply-busy
                      (opened o.base o.valid o.index o.since n on_complete o.vacant o.fresh)
                      (opened-IsValid o.base o.valid o.index o.since n on_complete o.vacant o.fresh)
                      o.index packet (m ∙ sym q) _
                      (opened-IsBusy o.base o.valid o.index o.since n on_complete o.vacant o.fresh)
                      (opened-get_elem? o.base o.valid o.index o.since n on_complete o.vacant
                        o.fresh),
                  get_elem?-set_self o.base.promises n _
                      (get_elem?-lt o.base.promises n none o.fresh.empty),
                ))
              id has_id same_id
      ]
  where
    Answered : AsyncOperation × Table → Type 0
    Answered (op', x) =
        (i : ℕ)
        → op'.transaction_id ≡ some i
        → packet.transaction_id ≡ i
        → (t2 : Table) × (handle_reply packet x ≡ some (ok tt, t2))
          × (get_elem? t2.promises op'.future
              ≡ some (some (completion_result (on_complete packet))))

-- Slot `i` of the table was taken longer before `now` than the time-out.
abbrev pub HoldsOverdue : Table → ℕ → ℕ → Type 0
HoldsOverdue t now i =
    (s : Slot) × (since : ℕ) × (get_elem? t.slots i ≡ some s)
    × (s.last_used ≡ some since)
    × (since + t.transaction_timeout < now)

own_slot :
    (t : Table) (times : List ℕ) (now : ℕ) (o : Opening t times now)
    → (o.index < length t.slots)
      × ((get_elem? t.slots o.index ≡ some free_slot) ⊎ HoldsOverdue t now o.index)
own_slot t times now o = elim o.from [
  | inl e ↦
      let h : get_elem? t.slots o.index ≡ some free_slot =
        sym (ap (λ (x : Table). get_elem? x.slots o.index) e) ∙ o.vacant in
      (get_elem?-lt t.slots o.index free_slot h, inl h)
  | inr (u, e) ↦
      let h : get_elem? (set t.slots u.index free_slot) o.index ≡ some free_slot =
        sym (ap (λ (x : Table). get_elem? x.slots o.index) e) ∙ o.vacant in
      let l = get_elem?-lt _ o.index free_slot h in
      (
        omega (arith, length-set t.slots u.index free_slot),
        elim (ℕ-cases u.index o.index) [
          | inl q ↦ inr (
            u.slot,
            u.busy.since,
            rw (← q) u.here,
            ap (λ (x : Slot). x.last_used) u.busy.shape,
            u.overdue,
          )
          | inr n ↦ inl (sym (get_elem?-set_ne t.slots u.index o.index free_slot n) ∙ h)
        ],
      )
]

-- The identifier that a start on a valid table hands out is in the configured range, and its slot
-- was free or held an operation that was overdue at the first reading of the clock.
pub start_operation-own_id :
    (t t1 : Table) (op : AsyncOperation) (id now now' : ℕ) (later : List ℕ)
    (on_complete : Packet → Completion) (send : ℕ → Option ErrorCode)
    → IsValid t
    → start_operation (now ∷ now' ∷ later) on_complete (send_result send) t ≡ some (op, t1)
    → op.transaction_id ≡ some id
    → (i : ℕ) × (id ≡ t.transaction_id_min + i)
      × (id < t.transaction_id_max)
      × ((get_elem? t.slots i ≡ some free_slot) ⊎ HoldsOverdue t now i)
start_operation-own_id t t1 op id now now' later on_complete send v e has_id =
    elim (start_operation-cases t v now now' later on_complete (send_result send)
      (send_result-Sends send)) [
        | inl (_, h) ↦ one_result Owned _ (op, t1) h e (λ i k. cc) id has_id
        | inr (o, inr (_, _, h)) ↦ one_result Owned _ (op, t1) h e (λ i k. cc) id has_id
        | inr (o, inl (_, h)) ↦
            one_result Owned _ (op, t1) h e
              (λ i k.
                let q : o.base.transaction_id_min + o.index ≡ i = cc in
                let (l, held) = own_slot t (now ∷ now' ∷ later) now o in
                (o.index, omega (arith, o.same_min), omega (arith, o.same_min, v.sized), held))
              id has_id
      ]
  where
    Owned : AsyncOperation × Table → Type 0
    Owned (op', x) =
        (j : ℕ)
        → op'.transaction_id ≡ some j
        → (i : ℕ) × (j ≡ t.transaction_id_min + i)
          × (j < t.transaction_id_max)
          × ((get_elem? t.slots i ≡ some free_slot) ⊎ HoldsOverdue t now i)
