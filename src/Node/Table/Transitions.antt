-- ===== src/Node/Table/Transitions.antt =====
-- What the operations on one slot of the table of transactions do, as updates of a slot and of a
-- promise.
use spw_rmap.Base.{
  ℕ, ◌+◌, ◌-◌, ◌<◌, ◌≡◌, refl, ap, ◌∙◌, inl, List, true, false, Option, none, some, length,
  get_elem?, set, arith, get_elem?-set_self, get_elem?-set_ne, set-set, get_elem?-lt,
}
use spw_rmap.Rmap.{Packet, Result, ok, err, Errc, ErrorCode}
use spw_rmap.Node.Table.{
  Callback, Completion, completes, throws, Slot, Table, free_slot, update_slot, set_value,
  out_of_range, release_transaction_id, complete, call_error, call_reply, clear_callbacks,
  force_release,
}
use spw_rmap.Node.Table.Valid.{owner-busy, IsBusy, IsValid, with_slot, with_slot-IsValid}

-- The operation in slot `i` ends with the result `r` of its promise `p`.
abbrev pub closed : ℕ → ℕ → Result (Unit {0}) → Table → Table
closed i p r t = with_slot i free_slot (set t.promises p (some r)) t

-- Slot `i` is given up.
abbrev pub freed : ℕ → Table → Table
freed i t = with_slot i free_slot t.promises t

pub set_value-eq :
    (p : ℕ) (r : Result (Unit {0})) (t : Table)
    → get_elem? t.promises p ≡ some none
    → set_value p r t ≡ some (record t { promises = set t.promises p (some r) })
unfolding set_value
set_value-eq p r t e = ground arith

pub update_slot-here :
    (i : ℕ) (f : Slot → Slot) (s : Slot) (t : Table)
    → get_elem? t.slots i ≡ some s
    → update_slot i f t ≡ some (with_slot i (f s) t.promises t)
update_slot-here i f s t here = rw here refl

-- What a promise gets on a reply.
abbrev pub completion_result : Completion → Result (Unit {0})
completion_result completes = ok tt
completion_result throws = err (ErrorCode.errc Errc.operation_canceled)

abbrev pub reply_result : Callback → Packet → Result (Unit {0})
reply_result cb packet = completion_result (cb.on_complete packet)

module _ (t : Table) (i : ℕ) (s : Slot) (v : IsValid t) (here : get_elem? t.slots i ≡ some s) where
  abbrev inside : i < length t.slots
  inside = get_elem?-lt t.slots i s here

  pub in_range : (id : ℕ) → id ≡ t.transaction_id_min + i → out_of_range id t ≡ false
  in_range id e = ground (arith, v.sized, inside)

  pub update_slot-eq :
      (f : Slot → Slot) (c : Slot) (ps : List (Option (Result (Unit {0}))))
      → update_slot i f (with_slot i c ps t) ≡ some (with_slot i (f c) ps t)
  update_slot-eq f c ps = rw (get_elem?-set_self t.slots i c inside, set-set t.slots i c (f c)) refl

  pub release-eq :
      (id : ℕ) (c : Slot) (ps : List (Option (Result (Unit {0}))))
      → id ≡ t.transaction_id_min + i
      → release_transaction_id id (with_slot i c ps t)
        ≡ some (with_slot i (record c { available = true; last_used = none }) ps t)
  unfolding release_transaction_id
  release-eq id c ps e =
      let k : id - t.transaction_id_min ≡ i = omega arith in
      rw (in_range id e, k)
        (update_slot-eq (λ x. record x { available = true; last_used = none }) c ps)

  complete-eq :
      (cb : Callback) (r : Result (Unit {0})) (c : Slot)
      → cb.transaction_id ≡ t.transaction_id_min + i
      → cb.tx_index ≡ i
      → get_elem? t.promises cb.promise ≡ some none
      → complete cb r (with_slot i c t.promises t)
        ≡ some (
            with_slot i
              (record c { available = true; last_used = none; reply_error_callback = none })
              (set t.promises cb.promise (some r))
              t)
  unfolding complete
  complete-eq cb r c own_id own_index pending =
      rw
        (
          set_value-eq cb.promise r (with_slot i c t.promises t) pending,
          release-eq cb.transaction_id c (set t.promises cb.promise (some r)) own_id,
          own_index,
        )
        (update_slot-eq (λ x. record x { reply_error_callback = none })
          (record c { available = true; last_used = none }) (set t.promises cb.promise (some r)))

  -- The table stays valid when the slot is given up, or its operation ends.
  pub freed-IsValid : IsValid (freed i t)
  freed-IsValid =
      with_slot-IsValid t i s free_slot t.promises v here (inl refl)
        λ j x b e n. (b.pending, λ k. cc)

  module _ (b : IsBusy t i s) where
    pub closed-IsValid : (r : Result (Unit {0})) → IsValid (closed i b.cb.promise r t)
    closed-IsValid r = with_slot-IsValid t i s free_slot _ v here (inl refl) λ j x c e n. (
      get_elem?-set_ne t.promises b.cb.promise c.cb.promise (some r) (λ h.
            n (v.distinct j i c.cb.promise x s e here (owner-busy c) (owner-busy b ∙ ap some h)))
          ∙ c.pending,
      λ k. cc,
    )

    pub clear_callbacks-eq :
        clear_callbacks i t
        ≡ some (
            with_slot i
              (record s { reply_callback = none; reply_error_callback = none })
              t.promises
              t)
    clear_callbacks-eq = update_slot-here i _ s t here

    -- forceReleaseTransaction_ on a slot in use fails its promise with `timed_out`.
    pub force_release-closed :
        force_release i t ≡ some (closed i b.cb.promise (err (ErrorCode.errc Errc.timed_out)) t)
    unfolding force_release call_error
    force_release-closed =
        rw (here, ap (λ (x : Slot). x.reply_error_callback) b.shape)
          (complete-eq b.cb (err (ErrorCode.errc Errc.timed_out))
            (record s { reply_callback = none; reply_error_callback = none }) b.own_id b.own_index
            b.pending)

    -- The lambda of a reply, behind the clearing of the slot.
    pub call_reply-closed :
        (packet : Packet)
        → call_reply b.cb packet (
            with_slot i
              (record s { reply_callback = none; reply_error_callback = none })
              t.promises
              t)
          ≡ some (closed i b.cb.promise (reply_result b.cb packet) t)
    unfolding call_reply
    call_reply-closed packet = by_completion (b.cb.on_complete packet)
      where
        cleared : Slot
        cleared = record s { reply_callback = none; reply_error_callback = none }

        done :
            (r : Result (Unit {0}))
            → complete b.cb r (with_slot i cleared t.promises t) ≡ some (closed i b.cb.promise r t)
        done r = complete-eq b.cb r cleared b.own_id b.own_index b.pending

        by_completion :
            (o : Completion)
            → (elim o [
              | completes ↦ complete b.cb (ok tt) (with_slot i cleared t.promises t)
              | throws ↦
                  complete b.cb
                    (err (ErrorCode.errc Errc.operation_canceled))
                    (with_slot i cleared t.promises t)
            ])
              ≡ some (closed i b.cb.promise (completion_result o) t)
        by_completion completes = done (ok tt)
        by_completion throws = done (err (ErrorCode.errc Errc.operation_canceled))
