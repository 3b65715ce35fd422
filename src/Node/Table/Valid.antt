-- ===== src/Node/Table/Valid.antt =====
-- The invariant of the table of transactions: a slot is free, or belongs to one operation whose
-- promise is still empty.
use spw_rmap.Base.{
  ℕ, ◌+◌, ◌-◌, ◌^◌, ◌≤◌, ◌<◌, ◌≡◌, ◌≢◌, sym, ap, ◌∙◌, ◌⊎◌, inl, inr, List, false, Option, none,
  some, length, get_elem?, set, arith, get_elem?-set_self, get_elem?-set_ne, length-set,
  get_elem?-lt,
}
use spw_rmap.Rmap.{Result}
use spw_rmap.Node.Table.{Callback, Slot, Table, free_slot}

abbrev pub busy_slot : ℕ → Callback → Slot
busy_slot now cb = record {
  available = false;
  last_used = some now;
  reply_callback = some cb;
  reply_error_callback = some cb;
}

-- The promise that a slot's callbacks resolve.
abbrev pub owner : Slot → Option ℕ
owner s = elim s.reply_callback [ none ↦ none | some cb ↦ some cb.promise ]

pub record IsBusy (t : Table) (i : ℕ) (s : Slot) : Type 0 where
  pub cb : Callback
  pub since : ℕ
  pub shape : s ≡ busy_slot since cb
  pub own_id : cb.transaction_id ≡ t.transaction_id_min + i
  pub own_index : cb.tx_index ≡ i
  pub pending : get_elem? t.promises cb.promise ≡ some none

pub record IsValid (t : Table) : Type 0 where
  pub ordered : t.transaction_id_min ≤ t.transaction_id_max
  pub narrow : t.transaction_id_max < 2 ^ 16
  pub sized : length t.slots ≡ t.transaction_id_max - t.transaction_id_min
  pub states : (i : ℕ) (s : Slot) → get_elem? t.slots i ≡ some s → (s ≡ free_slot) ⊎ IsBusy t i s
  pub distinct :
      (i j p : ℕ) (s s' : Slot)
      → get_elem? t.slots i ≡ some s
      → get_elem? t.slots j ≡ some s'
      → owner s ≡ some p
      → owner s' ≡ some p
      → i ≡ j

-- No slot belongs to promise `p`.
abbrev pub IsLoose : ℕ → Table → Type 0
IsLoose p t = (i : ℕ) (s : Slot) → get_elem? t.slots i ≡ some s → owner s ≢ some p

-- Slot `i` of the table becomes `s`, and the promises `ps`.
abbrev pub with_slot : ℕ → Slot → List (Option (Result (Unit {0}))) → Table → Table
with_slot i s ps t = record t { slots = set t.slots i s; promises = ps }

pub ℕ-cases : (i j : ℕ) → (i ≡ j) ⊎ (i ≢ j)
ℕ-cases i j = ground arith

pub owner-busy : {t : Table} {j : ℕ} {x : Slot} (b : IsBusy t j x) → owner x ≡ some b.cb.promise
owner-busy b = ap owner b.shape

module _ (t : Table) (i : ℕ) (s s' : Slot) (ps : List (Option (Result (Unit {0})))) (v : IsValid t)
    (here : get_elem? t.slots i ≡ some s) where
  pub get_elem?-with_slot :
      (j : ℕ) (x : Slot)
      → get_elem? (set t.slots i s') j ≡ some x
      → ((j ≡ i) × (x ≡ s')) ⊎ ((j ≢ i) × (get_elem? t.slots j ≡ some x))
  get_elem?-with_slot j x e = elim (ℕ-cases i j) [
    | inl h ↦
        inl (sym h, cc (e, h, get_elem?-set_self t.slots i s' (get_elem?-lt t.slots i s here)))
    | inr n ↦ inr ((λ h. n (sym h)), sym (get_elem?-set_ne t.slots i j s' n) ∙ e)
  ]

  module _ (fits : (s' ≡ free_slot) ⊎ IsBusy (with_slot i s' ps t) i s')
      (others : (j : ℕ) (x : Slot) (b : IsBusy t j x)
        → get_elem? t.slots j ≡ some x
        → j ≢ i
        → (get_elem? ps b.cb.promise ≡ some none) × (owner s' ≢ some b.cb.promise)) where
    with_slot-states :
        (j : ℕ) (x : Slot)
        → get_elem? (set t.slots i s') j ≡ some x
        → (x ≡ free_slot) ⊎ IsBusy (with_slot i s' ps t) j x
    with_slot-states j x e = elim (get_elem?-with_slot j x e) [
      | inl (h, hx) ↦ elim fits [
        | inl f ↦ inl (hx ∙ f)
        | inr b ↦ inr (record {
          cb = b.cb;
          since = b.since;
          shape = hx ∙ b.shape;
          own_id = omega (arith, b.own_id);
          own_index = b.own_index ∙ sym h;
          pending = b.pending;
        })
      ]
      | inr (n, old) ↦ elim (v.states j x old) [
        | inl f ↦ inl f
        | inr b ↦ inr (record {
          cb = b.cb;
          since = b.since;
          shape = b.shape;
          own_id = b.own_id;
          own_index = b.own_index;
          pending = (others j x b old n).0;
        })
      ]
    ]

    beside :
        (j p : ℕ) (x : Slot)
        → get_elem? t.slots j ≡ some x
        → j ≢ i
        → owner s' ≡ some p
        → owner x ≢ some p
    beside j p x e n h k = elim (v.states j x e) [
      | inl f ↦ cc (ap owner f)
      | inr b ↦ (others j x b e n).1 (h ∙ sym k ∙ owner-busy b)
    ]

    with_slot-distinct :
        (j k p : ℕ) (x y : Slot)
        → get_elem? (set t.slots i s') j ≡ some x
        → get_elem? (set t.slots i s') k ≡ some y
        → owner x ≡ some p
        → owner y ≡ some p
        → j ≡ k
    with_slot-distinct j k p x y ex ey ox oy = elim (get_elem?-with_slot j x ex) [
      | inl (h, hx) ↦ elim (get_elem?-with_slot k y ey) [
        | inl (g, _) ↦ h ∙ sym g
        | inr (n, old) ↦ absurd (beside k p y old n (ap owner (sym hx) ∙ ox) oy)
      ]
      | inr (n, old) ↦ elim (get_elem?-with_slot k y ey) [
        | inl (g, gy) ↦ absurd (beside j p x old n (ap owner (sym gy) ∙ oy) ox)
        | inr (m, old') ↦ v.distinct j k p x y old old' ox oy
      ]
    ]

    -- A slot and the promises can change together when the slots beside it keep theirs empty.
    pub with_slot-IsValid : IsValid (with_slot i s' ps t)
    with_slot-IsValid = record {
      ordered = v.ordered;
      narrow = v.narrow;
      sized = length-set t.slots i s' ∙ v.sized;
      states = with_slot-states;
      distinct = with_slot-distinct;
    }
