-- ===== src/Node/Operations/Outcomes.antt =====
-- What cancelTransaction_, the reply cases of poll and the start of an operation do to a valid
-- table.
use spw_rmap.Base.{
  ℕ, ◌+◌, ◌-◌, ◌<◌, ◌≡◌, refl, ap, true, none, some, length, get_elem?, arith, get_elem?-in,
}
use spw_rmap.Rmap.{Packet, ok, err, Errc, ErrorCode}
use spw_rmap.Node.Table.{Slot, Table, free_slot, out_of_range}
use spw_rmap.Node.Table.Valid.{IsBusy, IsValid}
use spw_rmap.Node.Table.Transitions.{
  closed, freed, reply_result, update_slot-here, in_range, release-eq, clear_callbacks-eq,
  call_reply-closed,
}
use spw_rmap.Node.Operations.{cancel_transaction, handle_reply}

abbrev cleared : Slot → Slot
cleared s = record s { reply_callback = none; reply_error_callback = none }

module _ (t : Table) (v : IsValid t) where
  -- Cancelling the identifier of a slot gives the slot up, and leaves all promises as they are.
  pub cancel_transaction-freed :
      (i : ℕ)
      → i < length t.slots
      → cancel_transaction (t.transaction_id_min + i) t ≡ some (freed i t)
  unfolding cancel_transaction
  cancel_transaction-freed i h =
      let (s, here) = get_elem?-in t.slots i h in
      let k : t.transaction_id_min + i - t.transaction_id_min ≡ i = omega arith in
      rw (in_range t i s v here _ refl, k, update_slot-here i cleared s t here)
        (release-eq t i s v here _ (cleared s) t.promises refl)

  -- A reply outside the range of identifiers is refused.
  pub handle_reply-out_of_range :
      (packet : Packet)
      → out_of_range packet.transaction_id t ≡ true
      → handle_reply packet t ≡ some (err (ErrorCode.errc Errc.bad_message), t)
  unfolding handle_reply
  handle_reply-out_of_range packet e = rw e refl

  module _ (i : ℕ) (packet : Packet) (e : packet.transaction_id ≡ t.transaction_id_min + i) where
    -- A reply for a free slot changes nothing.
    pub handle_reply-free :
        get_elem? t.slots i ≡ some free_slot → handle_reply packet t ≡ some (ok tt, t)
    unfolding handle_reply
    handle_reply-free here =
        let k : packet.transaction_id - t.transaction_id_min ≡ i = omega arith in
        rw (in_range t i free_slot v here packet.transaction_id e, k, here) refl

    -- A reply for a slot in use ends its operation.
    pub handle_reply-busy :
        (s : Slot) (b : IsBusy t i s)
        → get_elem? t.slots i ≡ some s
        → handle_reply packet t ≡ some (ok tt, closed i b.cb.promise (reply_result b.cb packet) t)
    unfolding handle_reply
    handle_reply-busy s b here =
        let k : packet.transaction_id - t.transaction_id_min ≡ i = omega arith in
        rw
          (
            in_range t i s v here packet.transaction_id e,
            k,
            here,
            ap (λ (x : Slot). x.reply_callback) b.shape,
          )
          (rw (k, clear_callbacks-eq t i s v here b, call_reply-closed t i s v here b packet) refl)
