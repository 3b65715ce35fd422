-- ===== src/Node/Operations/Start.antt =====
-- What startWriteAsyncOperation_ and startReadAsyncOperation_ do to a valid table.
use spw_rmap.Base.{
  ℕ, ◌+◌, ◌≡◌, refl, sym, ap, ◌∙◌, inl, inr, [], ◌∷◌, none, some, length, get_elem?, set, arith,
  get_elem?-append, get_elem?-append_left, get_elem?-set_self, get_elem?-set_ne, get_elem?-lt,
}
use spw_rmap.Rmap.{Packet, Result, ok, err, ErrorCode}
use spw_rmap.Node.Table.{Callback, Completion, Slot, Table, free_slot, update_slot, occupy}
use spw_rmap.Node.Table.Valid.{
  busy_slot, owner, owner-busy, IsBusy, IsValid, IsLoose, with_slot, with_slot-IsValid,
  get_elem?-with_slot,
}
use spw_rmap.Node.Table.Transitions.{closed, set_value-eq, update_slot-eq, release-eq}
use spw_rmap.Node.Table.Acquire.{taken}
use spw_rmap.Node.Operations.{callback, register, after_send, register_and_send, add_promise}

-- Promise `p` is empty, and no slot belongs to it.
pub record IsFresh (p : ℕ) (t : Table) : Type 0 where
  pub loose : IsLoose p t
  pub empty : get_elem? t.promises p ≡ some none

module _ (t : Table) (v : IsValid t) where
  pub add_promise-IsValid : IsValid (add_promise t)
  add_promise-IsValid = record {
    ordered = v.ordered;
    narrow = v.narrow;
    sized = v.sized;
    states = λ i s e. elim (v.states i s e) [
      | inl f ↦ inl f
      | inr b ↦ inr (record {
        cb = b.cb;
        since = b.since;
        shape = b.shape;
        own_id = b.own_id;
        own_index = b.own_index;
        pending = get_elem?-append_left t.promises (none ∷ []) b.cb.promise none b.pending;
      })
    ];
    distinct = v.distinct;
  }

  pub add_promise-IsFresh : IsFresh (length t.promises) (add_promise t)
  add_promise-IsFresh = record {
    loose = λ i s e o. elim (v.states i s e) [
      | inl f ↦ let q : none ≡ some (length t.promises) = sym (ap owner f) ∙ o in cc
      | inr b ↦
          let q : some b.cb.promise ≡ some (length t.promises) = sym (owner-busy b) ∙ o in
          let r : b.cb.promise ≡ length t.promises = cc in
          let l = get_elem?-lt t.promises b.cb.promise none b.pending in absurd (omega arith)
    ];
    empty = get_elem?-append t.promises (none ∷ []) 0 (length t.promises) (omega arith);
  }

  pub closed-IsFresh :
      (i p : ℕ) (s : Slot) (b : IsBusy t i s) (r : Result (Unit {0}))
      → get_elem? t.slots i ≡ some s
      → IsFresh p t
      → IsFresh p (closed i b.cb.promise r t)
  closed-IsFresh i p s b r here f = record {
    loose = λ j x e o. elim (get_elem?-with_slot t i s free_slot t.promises v here j x e) [
      | inl (_, h) ↦ let q : none ≡ some p = sym (ap owner h) ∙ o in cc
      | inr (_, old) ↦ f.loose j x old o
    ];
    empty =
        get_elem?-set_ne t.promises b.cb.promise p (some r)
          (λ e. f.loose i s here (owner-busy b ∙ ap some e))
        ∙ f.empty;
  }

-- A promise of no slot is given a result.
pub settled-IsValid :
    (t : Table) (p : ℕ) (r : Result (Unit {0}))
    → IsValid t
    → IsFresh p t
    → IsValid (record t { promises = set t.promises p (some r) })
settled-IsValid t p r v f = record {
  ordered = v.ordered;
  narrow = v.narrow;
  sized = v.sized;
  states = λ i s e. elim (v.states i s e) [
    | inl x ↦ inl x
    | inr b ↦ inr (record {
      cb = b.cb;
      since = b.since;
      shape = b.shape;
      own_id = b.own_id;
      own_index = b.own_index;
      pending =
          get_elem?-set_ne t.promises p b.cb.promise (some r)
            (λ h. f.loose i s e (owner-busy b ∙ ap some (sym h)))
          ∙ b.pending;
    })
  ];
  distinct = v.distinct;
}

-- A promise and a time are given; slot `i` of a valid table is free.
module _ (t : Table) (v : IsValid t) (i now p : ℕ) (on_complete : Packet → Completion)
    (vacant : get_elem? t.slots i ≡ some free_slot) (fresh : IsFresh p t) where
  abbrev pub opener : Callback
  opener = callback p (t.transaction_id_min + i) i on_complete

  -- The operation is in slot `i`.
  abbrev pub opened : Table
  opened = with_slot i (busy_slot now opener) t.promises t

  abbrev pub opened-IsBusy : IsBusy opened i (busy_slot now opener)
  opened-IsBusy = record {
    cb = opener;
    since = now;
    shape = refl;
    own_id = refl;
    own_index = refl;
    pending = fresh.empty;
  }

  pub opened-get_elem? : get_elem? opened.slots i ≡ some (busy_slot now opener)
  opened-get_elem? =
      get_elem?-set_self t.slots i (busy_slot now opener) (get_elem?-lt t.slots i free_slot vacant)

  pub opened-IsValid : IsValid opened
  opened-IsValid =
      with_slot-IsValid t i free_slot (busy_slot now opener) t.promises v vacant (inr opened-IsBusy)
        λ j x b e n. (b.pending, λ h. fresh.loose j x e (owner-busy b ∙ sym h))

  registered : update_slot i (register opener) (taken i now t) ≡ some opened
  registered =
      update_slot-eq t i free_slot v vacant (register opener) (occupy now free_slot) t.promises

  -- The packet was sent: the operation stays in its slot.
  pub register_and_send-ok :
      (send : ℕ → Result (Unit {0}))
      → send (t.transaction_id_min + i) ≡ ok tt
      → register_and_send opener send (taken i now t)
        ≡ some (record { future = p; transaction_id = some (t.transaction_id_min + i) }, opened)
  unfolding register_and_send after_send
  register_and_send-ok send e = rw (registered, e) refl

  -- The packet was not sent: the promise has the error, and the slot is free again.
  pub register_and_send-err :
      (send : ℕ → Result (Unit {0})) (e : ErrorCode)
      → send (t.transaction_id_min + i) ≡ err e
      → register_and_send opener send (taken i now t)
        ≡ some (record { future = p; transaction_id = none }, closed i p (err e) t)
  unfolding register_and_send after_send
  register_and_send-err send e h =
      rw
        (
          registered,
          h,
          update_slot-eq t i free_slot v vacant
              (λ s. record s { reply_callback = none; reply_error_callback = none })
              (busy_slot now opener) t.promises,
          set_value-eq p (err e)
              (with_slot i
                (record (busy_slot now opener) {
                  reply_callback = none;
                  reply_error_callback = none;
                })
                t.promises t)
              fresh.empty,
          release-eq t i free_slot v vacant (t.transaction_id_min + i)
              (record (busy_slot now opener) { reply_callback = none; reply_error_callback = none })
              (set t.promises p (some (err e))) refl,
        )
        refl

  pub closed_fresh-IsValid : (r : Result (Unit {0})) → IsValid (closed i p r t)
  closed_fresh-IsValid r =
      with_slot-IsValid t i free_slot free_slot _ v vacant (inl refl) λ j x b e n. (
        get_elem?-set_ne t.promises p b.cb.promise (some r)
              (λ h. fresh.loose j x e (owner-busy b ∙ ap some (sym h)))
            ∙ b.pending,
        λ k. cc,
      )
