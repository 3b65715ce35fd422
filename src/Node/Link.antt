-- ===== src/Node/Link.antt =====
-- The receiving side of SpwRmapTCPNodeImpl
-- (include/spw_rmap/internal/spw_rmap_tcp_node_impl.hh) as a state: its members, the results of its
-- calls, and the steps that the calls are made of. The backend has a state `S`.
use spw_rmap.Base.{ℕ, ◌+◌, Bool, true, false, List, ◌++◌, length, take, drop}
use spw_rmap.Rmap.{Packet, Result, ok, err, fault, Errc, ErrorCode}
use spw_rmap.Node.Send.{BufferPolicy}

-- `recvSome` into a span of the given size: the bytes that it wrote to the front of the span, in the
-- number that it gives.
abbrev pub RecvSome : Type 0 → Type 0
RecvSome S = ℕ → S → Result (List ℕ) × S

-- The result of recvExact_, the bytes that it wrote to the front of its span, and the backend.
abbrev pub Received : Type 0 → Type 0
Received S = Result ℕ × List ℕ × S

-- The state of a receiving node; `connected` says that tcp_backend_ is not null.
pub record Receiver (S : Type 0) : Type 0 where
  pub connected : Bool
  pub recv_buf : List ℕ
  pub buffer_policy : BufferPolicy
  pub packet : Packet
  pub stream : S

-- The fuel ran out, or the call ended with a result.
pub data Outcome (S A : Type 0) : Type 0 where
  spent : Outcome S A
  done : Result A → Receiver S → Outcome S A

abbrev pub M : Type 0 → Type 0 → Type 0
M S A = Receiver S → Outcome S A

-- What follows a call that ended.
abbrev pub followed : {S A B : Type 0} → Outcome S A → (A → M S B) → Outcome S B
followed spent f = spent
followed (done (ok a) r) f = f a r
followed (done (err e) r) f = done (err e) r
followed (done fault r) f = done fault r

infixl 5 ◌>>=◌ ◌>>◌
abbrev pub ◌>>=◌ : {S A B : Type 0} → M S A → (A → M S B) → M S B
◌>>=◌ m f r = followed (m r) f

abbrev pub ◌>>◌ : {S B : Type 0} → M S (Unit {0}) → M S B → M S B
m >> k = m >>= λ _. k

abbrev pub pure : {S A : Type 0} → A → M S A
pure a = done (ok a)

abbrev pub lift : {S A : Type 0} → Result A → M S A
lift x = done x

abbrev pub fail_if : {S : Type 0} → Bool → Errc → M S (Unit {0})
fail_if true e = done (err (ErrorCode.errc e))
fail_if false e = done (ok tt)

-- A span is taken only inside of its buffer.
abbrev pub fault_if : {S : Type 0} → Bool → M S (Unit {0})
fault_if true = done fault
fault_if false = done (ok tt)

-- A write of bytes from place `off` on.
abbrev pub write_at : ℕ → List ℕ → List ℕ → List ℕ
write_at off bytes buf = take off buf ++ (bytes ++ drop (off + length bytes) buf)
