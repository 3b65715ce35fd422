-- ===== src/Node/Table/Acquire.antt =====
-- getAvailableTransactionID_ on a valid table: a free identifier, or one whose operation is
-- overdue, or a refusal when every operation is in time.
use spw_rmap.Base.{
  ℕ, zero, suc, ◌+◌, ◌<◌, ◌≡◌, ◌≢◌, refl, sym, ap, ◌∙◌, ◌⊎◌, inl, inr, List, [], ◌∷◌, Bool, true,
  false, Option, none, some, get_elem?, arith, Bool-cases, if◌then◌else◌, ltb→lt,
  get_elem?-set_self, get_elem?-lt,
}
use spw_rmap.Rmap.{ok, err, Errc, ErrorCode}
use spw_rmap.Node.Table.{
  Slot, Table, free_slot, Scan, free, expired, exhausted, is_expired, scan, occupy, get_available,
}
use spw_rmap.Node.Table.Valid.{IsBusy, IsValid, with_slot}
use spw_rmap.Node.Table.Transitions.{closed, update_slot-here, closed-IsValid, force_release-closed}

-- No slot of the list is available.
abbrev pub AllTaken : List Slot → Type 0
AllTaken ss = (i : ℕ) (s : Slot) → get_elem? ss i ≡ some s → s.available ≡ false

-- No slot of the list is available or overdue.
abbrev pub AllInTime : ℕ → ℕ → List Slot → Type 0
AllInTime now timeout ss =
    (i : ℕ) (s : Slot)
    → get_elem? ss i ≡ some s
    → (s.available ≡ false) × (is_expired now timeout s ≡ false)

-- What a pass of the loop over the slots `ss` from index `i` on tells.
abbrev Scanned : ℕ → ℕ → List Slot → ℕ → Option ℕ → Scan → Type 0
Scanned now timeout ss i found (free k) =
    (j : ℕ) × (s : Slot) × (k ≡ i + j) × (get_elem? ss j ≡ some s) × (s.available ≡ true)
Scanned now timeout ss i found (expired k) =
    AllTaken ss
    × ((found ≡ some k)
        ⊎ ((j : ℕ) × (s : Slot) × (k ≡ i + j)
            × (get_elem? ss j ≡ some s)
            × (is_expired now timeout s ≡ true)))
Scanned now timeout ss i found exhausted = (found ≡ none) × AllInTime now timeout ss

abbrev noted : ℕ → ℕ → ℕ → Slot → Option ℕ → Option ℕ
noted now timeout i s found = elim found [
  | some k ↦ some k
  | none ↦ if is_expired now timeout s then some i else none
]

noted-some :
    (now timeout i k : ℕ) (s : Slot) (found : Option ℕ)
    → noted now timeout i s found ≡ some k
    → (found ≡ some k) ⊎ ((k ≡ i) × (is_expired now timeout s ≡ true))
noted-some now timeout i k s (some l) e = inl e
noted-some now timeout i k s none e = elim (Bool-cases (is_expired now timeout s)) [
  | inl h ↦ inr (cc, h)
  | inr h ↦ absurd (cc)
]

noted-none :
    (now timeout i : ℕ) (s : Slot) (found : Option ℕ)
    → noted now timeout i s found ≡ none
    → (found ≡ none) × (is_expired now timeout s ≡ false)
noted-none now timeout i s (some l) e = cc
noted-none now timeout i s none e = elim (Bool-cases (is_expired now timeout s)) [
  | inl h ↦ absurd (cc)
  | inr h ↦ (refl, h)
]

module _ (now timeout i : ℕ) (s : Slot) (ss : List Slot) (found : Option ℕ) where
  AllTaken-cons : s.available ≡ false → AllTaken ss → AllTaken (s ∷ ss)
  AllTaken-cons h a zero x e = cc
  AllTaken-cons h a (suc j) x e = a j x e

  AllInTime-cons :
      s.available ≡ false
      → is_expired now timeout s ≡ false
      → AllInTime now timeout ss
      → AllInTime now timeout (s ∷ ss)
  AllInTime-cons h o a zero x e = let q : s ≡ x = cc in rw (← q) (h, o)
  AllInTime-cons h o a (suc j) x e = a j x e

  Scanned-cons :
      (r : Scan)
      → s.available ≡ false
      → Scanned now timeout ss (suc i) (noted now timeout i s found) r
      → Scanned now timeout (s ∷ ss) i found r
  Scanned-cons (free k) h (j, x, k_eq, e, a) = (suc j, x, omega arith, e, a)
  Scanned-cons (expired k) h (a, inr (j, x, k_eq, e, o)) =
      (AllTaken-cons h a, inr (suc j, x, omega arith, e, o))
  Scanned-cons (expired k) h (a, inl e) = (
    AllTaken-cons h a,
    elim (noted-some now timeout i k s found e) [
      | inl f ↦ inl f
      | inr (f, o) ↦ inr (0, s, omega arith, refl, o)
    ],
  )
  Scanned-cons exhausted h (e, a) =
      let (f, o) = noted-none now timeout i s found e in (f, AllInTime-cons h o a)

  Scanned-if :
      (r : Scan)
      → Scanned now timeout ss (suc i) (noted now timeout i s found) r
      → (b : Bool) → s.available ≡ b
      → Scanned now timeout (s ∷ ss) i found (if b then free i else r)
  Scanned-if r h true e = (0, s, omega arith, refl, e)
  Scanned-if r h false e = Scanned-cons r e h

scan-Scanned :
    (now timeout : ℕ) (ss : List Slot) (i : ℕ) (found : Option ℕ)
    → Scanned now timeout ss i found (scan now timeout ss i found)
unfolding scan
scan-Scanned now timeout [] i none = (refl, λ j s e. cc)
scan-Scanned now timeout [] i (some k) = ((λ j s e. cc), inl refl)
scan-Scanned now timeout (s ∷ ss) i found =
    Scanned-if now timeout i s ss found _
      (scan-Scanned now timeout ss (suc i) (noted now timeout i s found)) s.available refl

-- Slot `i` is taken at time `now`, before its callbacks are stored.
abbrev pub taken : ℕ → ℕ → Table → Table
taken i now t = with_slot i (occupy now free_slot) t.promises t

-- Some free slot of `t` is taken.
pub record Takes (t : Table) (times : List ℕ) : Type 0 where
  pub index : ℕ
  pub now : ℕ
  pub vacant : get_elem? t.slots index ≡ some free_slot
  pub taking : get_available times t ≡ some (ok (t.transaction_id_min + index), taken index now t)

-- All slots are in use; slot `index` of an overdue operation is closed with a time-out.
pub record Overdue (t : Table) (now : ℕ) : Type 0 where
  pub index : ℕ
  pub slot : Slot
  pub here : get_elem? t.slots index ≡ some slot
  pub busy : IsBusy t index slot
  pub overdue : busy.since + t.transaction_timeout < now
  pub all_taken : AllTaken t.slots

module _ (t : Table) (v : IsValid t) where
  available-free :
      (i : ℕ) (s : Slot) → get_elem? t.slots i ≡ some s → s.available ≡ true → s ≡ free_slot
  available-free i s e a = elim (v.states i s e) [
    | inl f ↦ f
    | inr b ↦ absurd (let q : s.available ≡ false = ap (λ (x : Slot). x.available) b.shape in cc)
  ]

  taken-busy :
      (i : ℕ) (s : Slot) → get_elem? t.slots i ≡ some s → s.available ≡ false → IsBusy t i s
  taken-busy i s e a = elim (v.states i s e) [
    | inl f ↦ absurd (let q : s.available ≡ true = ap (λ (x : Slot). x.available) f in cc)
    | inr b ↦ b
  ]

  -- What one round of the loop does.
  abbrev Round : ℕ → List ℕ → Type 0
  Round now later =
      Takes t (now ∷ later)
      ⊎ (((o : Overdue t now) × (get_available (now ∷ later) t
              ≡ get_available later
                  (closed o.index o.busy.cb.promise (err (ErrorCode.errc Errc.timed_out)) t)))
          ⊎ (AllInTime now t.transaction_timeout t.slots
              × (get_available (now ∷ later) t
                  ≡ some (err (ErrorCode.errc Errc.resource_unavailable_try_again), t))))

  is_expired-busy :
      (now i : ℕ) (s : Slot) (b : IsBusy t i s)
      → is_expired now t.transaction_timeout s ≡ true
      → b.since + t.transaction_timeout < now
  is_expired-busy now i s b e =
      ltb→lt _ _ (sym (ap (is_expired now t.transaction_timeout) b.shape) ∙ e)

  scan-Round :
      (now : ℕ) (later : List ℕ) (r : Scan)
      → scan now t.transaction_timeout t.slots 0 none ≡ r
      → Scanned now t.transaction_timeout t.slots 0 none r
      → Round now later
  unfolding get_available
  scan-Round now later (free k) e (j, s, k_eq, here, a) =
      let vacant : get_elem? t.slots k ≡ some free_slot =
        (let q : k ≡ j = omega arith in rw q (here ∙ ap some (available-free j s here a))) in
      inl (record {
        index = k;
        now = now;
        vacant = vacant;
        taking = rw (get_available, e, update_slot-here k (occupy now) free_slot t vacant) refl;
      })
  scan-Round now later (expired k) e (a, inl h) = cc
  scan-Round now later (expired k) e (a, inr (j, s, k_eq, here, o)) =
      let b = taken-busy j s here (a j s here) in
      let q : k ≡ j = omega arith in
      inr (
        inl (
          record {
            index = j;
            slot = s;
            here = here;
            busy = b;
            overdue = is_expired-busy now j s b o;
            all_taken = a;
          },
          rw (get_available, e, q, force_release-closed t j s v here b) refl,
        ))
  scan-Round now later exhausted e (_, a) = inr (inr (a, rw (get_available, e) refl))

round : (t : Table) (v : IsValid t) (now : ℕ) (later : List ℕ) → Round t v now later
round t v now later =
    scan-Round t v now later _ refl (scan-Scanned now t.transaction_timeout t.slots 0 none)

-- After the time-out of an overdue operation, the next round of the loop takes a free identifier.
closed-Takes :
    (t : Table) (v : IsValid t) (now now' : ℕ) (later : List ℕ) (o : Overdue t now)
    → Takes
        (closed o.index o.busy.cb.promise (err (ErrorCode.errc Errc.timed_out)) t)
        (now' ∷ later)
closed-Takes t v now now' later o = elim (round t' v' now' later) [
  | inl x ↦ x
  | inr (inl (o', _)) ↦ absurd (not_taken (o'.all_taken o.index free_slot freed_here))
  | inr (inr (a, _)) ↦ absurd (not_taken (a o.index free_slot freed_here).0)
]
  where
    t' : Table
    t' = closed o.index o.busy.cb.promise (err (ErrorCode.errc Errc.timed_out)) t

    v' : IsValid t'
    v' = closed-IsValid t o.index o.slot v o.here o.busy _

    freed_here : get_elem? t'.slots o.index ≡ some free_slot
    freed_here =
        get_elem?-set_self t.slots o.index free_slot (get_elem?-lt t.slots o.index o.slot o.here)

    not_taken : true ≢ false
    not_taken e = cc

-- What getAvailableTransactionID_ does.
pub record Reclaims (t : Table) (now : ℕ) (later : List ℕ) : Type 0 where
  pub from : Overdue t now
  pub takes :
      Takes (closed from.index from.busy.cb.promise (err (ErrorCode.errc Errc.timed_out)) t) later
  pub same :
      get_available (now ∷ later) t
      ≡ get_available later
          (closed from.index from.busy.cb.promise (err (ErrorCode.errc Errc.timed_out)) t)

-- On a valid table and with two readings of the clock the loop ends: it takes a free identifier; or
-- all are in use, and an overdue operation is failed with a time-out and an identifier taken; or all are in
-- use and in time, and it is refused.
pub get_available-cases :
    (t : Table) (now now' : ℕ) (later : List ℕ)
    → IsValid t
    → Takes t (now ∷ now' ∷ later)
      ⊎ (Reclaims t now (now' ∷ later)
          ⊎ (AllInTime now t.transaction_timeout t.slots
              × (get_available (now ∷ now' ∷ later) t
                  ≡ some (err (ErrorCode.errc Errc.resource_unavailable_try_again), t))))
get_available-cases t now now' later v = elim (round t v now (now' ∷ later)) [
  | inl x ↦ inl x
  | inr (inl (o, e)) ↦
      inr (inl (record { from = o; takes = closed-Takes t v now now' later o; same = e }))
  | inr (inr x) ↦ inr (inr x)
]
