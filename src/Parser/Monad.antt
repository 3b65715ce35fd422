-- ===== src/Parser/Monad.antt =====
-- The steps of a parse: reading at `head`, writing the fields of `packet_`, and early returns.
use spw_rmap.Base.{
  ℕ, zero, suc, ◌+◌, ◌<◌, ◌≡◌, refl, List, [], ◌∷◌, Bool, true, false, Option, none, some, length,
  get_elem?, get_or, take, drop, leb, arith,
}
use spw_rmap.Rmap.{Packet, Status, success}

-- The result of a step: a fault, a `return`, or a value with the new `head` and `packet_`.
pub data Outcome (A : Type 0) : Type 0 where
  fault : Outcome A
  returned : Status → Packet → Outcome A
  go : A → ℕ → Packet → Outcome A

abbrev pub M : Type 0 → Type 0
M A = ℕ → Packet → Outcome A

infixl 5 ◌>>=◌ ◌>>◌
abbrev pub ◌>>=◌ : {A B : Type 0} → M A → (A → M B) → M B
◌>>=◌ m f h k = elim (m h k) [
  | fault ↦ fault
  | returned s k' ↦ returned s k'
  | go a h' k' ↦ f a h' k'
]

abbrev pub ◌>>◌ : {B : Type 0} → M (Unit {0}) → M B → M B
m >> n = m >>= λ _. n

abbrev pub pure : {A : Type 0} → A → M A
pure a h k = go a h k

abbrev pub modify : (Packet → Packet) → M (Unit {0})
modify f h k = go tt h (f k)

abbrev pub exit_if : Bool → Status → M (Unit {0})
exit_if true s h k = returned s k
exit_if false s h k = go tt h k

abbrev pub or_fault : {A : Type 0} → Option A → M A
or_fault none h k = fault
or_fault (some a) h k = go a h k

abbrev pub get_head : M ℕ
get_head h k = go h h k

-- `head += n`
abbrev pub skip : ℕ → M (Unit {0})
skip n h k = go tt (h + n) k

-- `packet[i]`
abbrev pub at : List ℕ → ℕ → M ℕ
at p i = or_fault (get_elem? p i)

-- `packet[head++]`
abbrev pub next : List ℕ → M ℕ
next p h k = elim (get_elem? p h) [ none ↦ fault | some b ↦ go b (h + 1) k ]

-- `packet.subspan(off, count)`
abbrev pub subspan : List ℕ → ℕ → ℕ → Option (List ℕ)
subspan p off count = elim (leb (off + count) (length p)) [
  | true ↦ some (take count (drop off p))
  | false ↦ none
]

-- The result of a whole call; a call that gets to its end returns `Status::Success`.
abbrev pub finish : {A : Type 0} → M A → Packet → Option (Status × Packet)
finish m k = elim (m 0 k) [
  | fault ↦ none
  | returned s k' ↦ some (s, k')
  | go _ _ k' ↦ some (success, k')
]

abbrev pub byte_at : List ℕ → ℕ → ℕ
byte_at p i = get_or p i 0

pub get_elem?-byte_at : (p : List ℕ) (i : ℕ) → i < length p → get_elem? p i ≡ some (byte_at p i)
get_elem?-byte_at [] i h = absurd (omega arith)
get_elem?-byte_at (x ∷ p) zero h = refl
get_elem?-byte_at (x ∷ p) (suc i) h = get_elem?-byte_at p i (omega arith)
