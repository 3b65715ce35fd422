-- ===== src/Node/Table.antt =====
-- The transactions of SpwRmapTCPNodeImpl
-- (include/spw_rmap/internal/spw_rmap_tcp_node_impl.hh): the vectors indexed by a transaction's
-- identifier, and the promises that the callbacks in them resolve.
pub mod Valid
pub mod Transitions
pub mod Acquire
use spw_rmap.Base.{
  ℕ, zero, suc, ◌+◌, ◌-◌, ◌%◌, ◌^◌, List, [], ◌∷◌, Bool, true, false, ◌||◌, Option, none, some,
  get_elem?, set, replicate, ltb, leb, if◌then◌else◌,
}
use spw_rmap.Rmap.{Packet, Result, ok, err, Errc, ErrorCode}

-- What `on_complete` does on a packet: it returns, or it throws.
pub data Completion : Type 0 where
  completes throws : Completion

-- What the two lambdas of one operation capture.
pub record Callback : Type 0 where
  pub promise : ℕ
  pub transaction_id : ℕ
  pub tx_index : ℕ
  pub on_complete : Packet → Completion

-- Entry `i` of available_transaction_ids_, transaction_last_used_, reply_callback_ and
-- reply_error_callback_, which grow together in the constructor and never after it.
-- `time_point::min()` is `none`, an empty std::function too.
pub record Slot : Type 0 where
  pub available : Bool
  pub last_used : Option ℕ
  pub reply_callback : Option Callback
  pub reply_error_callback : Option Callback

-- A promise is a place in `promises`: empty, or with the result it was given.
pub record Table : Type 0 where
  pub transaction_id_min : ℕ
  pub transaction_id_max : ℕ
  pub transaction_timeout : ℕ
  pub slots : List Slot
  pub promises : List (Option (Result (Unit {0})))

abbrev pub free_slot : Slot
free_slot = record {
  available = true;
  last_used = none;
  reply_callback = none;
  reply_error_callback = none;
}

-- The constructor; the number of rounds is an `int` that is converted to uint32_t.
unfoldable pub new_table : ℕ → ℕ → Table
new_table min max = record {
  transaction_id_min = min;
  transaction_id_max = max;
  transaction_timeout = 1000;
  slots = replicate ((2 ^ 32 + max - min) % 2 ^ 32) free_slot;
  promises = [];
}

-- In the operations below `none` is no value of the program: an index out of a vector, a failed
-- `assert`, or the exception of a promise that is set twice, which leaves a noexcept function.
infixl 5 ◌>>=◌
abbrev pub ◌>>=◌ {ℓ κ} : {A : Type ℓ} {B : Type κ} → Option A → (A → Option B) → Option B
none >>= f = none
some a >>= f = f a

abbrev pub update_slot : ℕ → (Slot → Slot) → Table → Option Table
update_slot i f t = do s ← get_elem? t.slots i; some (record t { slots = set t.slots i (f s) })

-- `promise->set_value(r)`
unfoldable pub set_value : ℕ → Result (Unit {0}) → Table → Option Table
set_value p r t = elim (get_elem? t.promises p) [
  | none ↦ none
  | some (some _) ↦ none
  | some none ↦ some (record t { promises = set t.promises p (some r) })
]

-- The guard of releaseTransactionID_, cancelTransaction_ and poll.
abbrev pub out_of_range : ℕ → Table → Bool
out_of_range id t = ltb id t.transaction_id_min || leb t.transaction_id_max id

unfoldable pub release_transaction_id : ℕ → Table → Option Table
release_transaction_id id t =
    if out_of_range id t
    then none
    else update_slot (id - t.transaction_id_min)
        (λ s. record s { available = true; last_used = none }) t

-- The end of each of the lambdas.
unfoldable pub complete : Callback → Result (Unit {0}) → Table → Option Table
complete cb r t = do
  t1 ← set_value cb.promise r t
  t2 ← release_transaction_id cb.transaction_id t1
  update_slot cb.tx_index (λ s. record s { reply_error_callback = none }) t2

-- The lambda in reply_error_callback_.
unfoldable pub call_error : Callback → ErrorCode → Table → Option Table
call_error cb e = complete cb (err e)

-- The lambda in reply_callback_.
unfoldable pub call_reply : Callback → Packet → Table → Option Table
call_reply cb packet t = elim (cb.on_complete packet) [
  | completes ↦ complete cb (ok tt) t
  | throws ↦ complete cb (err (ErrorCode.errc Errc.operation_canceled)) t
]

abbrev pub clear_callbacks : ℕ → Table → Option Table
clear_callbacks i =
    update_slot i λ s. record s { reply_callback = none; reply_error_callback = none }

unfoldable pub force_release : ℕ → Table → Option Table
force_release index t = do
  s ← get_elem? t.slots index
  t1 ← clear_callbacks index t
  elim s.reply_error_callback [
    | some cb ↦ call_error cb (ErrorCode.errc Errc.timed_out) t1
    | none ↦ release_transaction_id ((t.transaction_id_min + index % 2 ^ 16) % 2 ^ 16) t1
  ]

-- What one pass of the `for` loop of getAvailableTransactionID_ finds.
pub data Scan : Type 0 where
  free : ℕ → Scan
  expired : ℕ → Scan
  exhausted : Scan

-- `now - transaction_last_used_[i] > transaction_timeout_`, for a slot in use, which has a time in each
-- table that the operations reach. For `time_point::min()` the subtraction overflows, and what it wraps
-- to is negative.
abbrev pub is_expired : ℕ → ℕ → Slot → Bool
is_expired now timeout s = elim s.last_used [ none ↦ false | some t ↦ ltb (t + timeout) now ]

unfoldable pub scan : ℕ → ℕ → List Slot → ℕ → Option ℕ → Scan
scan now timeout [] i none = exhausted
scan now timeout [] i (some k) = expired k
scan now timeout (s ∷ ss) i found =
    if s.available
    then free i
    else scan now timeout ss (suc i)
        (elim found [ some k ↦ some k | none ↦ if is_expired now timeout s then some i else none ])

abbrev pub occupy : ℕ → Slot → Slot
occupy now s = record s { available = false; last_used = some now }

-- getAvailableTransactionID_, with the time that each round of its loop reads. `none` is also the
-- end of the fuel.
unfoldable pub get_available : List ℕ → Table → Option (Result ℕ × Table)
get_available [] t = none
get_available (now ∷ later) t = elim (scan now t.transaction_timeout t.slots 0 none) [
  | free i ↦ do t' ← update_slot i (occupy now) t; some (ok (t.transaction_id_min + i), t')
  | exhausted ↦ some (err (ErrorCode.errc Errc.resource_unavailable_try_again), t)
  | expired i ↦ do t' ← force_release i t; get_available later t'
]
