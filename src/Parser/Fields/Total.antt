-- ===== src/Parser/Fields/Total.antt =====
-- Inside the span these reads never fault, and what they read.
use spw_rmap.Base.{
  ℕ, zero, suc, ◌+◌, ◌-◌, ◌≤◌, ◌<◌, ◌≡◌, ◌∙◌, refl, List, [], ◌∷◌, true, false, inl, inr, length,
  take, drop, ◌==◌, if◌then◌else◌, Bool-cases, tests, leb, arith,
}
use spw_rmap.Rmap.{Packet}
use spw_rmap.Parser.Monad.{go, byte_at, get_elem?-byte_at}
use spw_rmap.Parser.Fields.{strip_loop, read_reply_address, or_shifted, read_command_tail}
use spw_rmap.Parser.Fields.Numbers.{be24, be32}

abbrev pub tail_at : List ℕ → ℕ → Packet → Packet
tail_at p h k = record k {
  initiator_logical_address = byte_at p h;
  transaction_id = or_shifted 16 (or_shifted 16 0 (byte_at p (h + 1)) 8) (byte_at p (h + 2)) 0;
  extended_address = byte_at p (h + 3);
  address = be32 (byte_at p (h + 4)) (byte_at p (h + 5)) (byte_at p (h + 6)) (byte_at p (h + 7));
  data_length = be24 (byte_at p (h + 8)) (byte_at p (h + 9)) (byte_at p (h + 10));
}

pub read_command_tail-eq :
    (p : List ℕ) (h : ℕ) (k : Packet)
    → h + 11 ≤ length p
    → read_command_tail p h k ≡ go tt (h + 11) (tail_at p h k)
unfolding read_command_tail
read_command_tail-eq p h k e = ground (
  arith,
  get_elem?-byte_at p h,
  get_elem?-byte_at p (h + 1),
  get_elem?-byte_at p (h + 2),
  get_elem?-byte_at p (h + 3),
  get_elem?-byte_at p (h + 4),
  get_elem?-byte_at p (h + 5),
  get_elem?-byte_at p (h + 6),
  get_elem?-byte_at p (h + 7),
  get_elem?-byte_at p (h + 8),
  get_elem?-byte_at p (h + 9),
  get_elem?-byte_at p (h + 10),
)

-- A list from its first byte that is not 0 on.
unfoldable pub strip_zeros : List ℕ → List ℕ
strip_zeros [] = []
strip_zeros (b ∷ bs) = if b == 0 then strip_zeros bs else b ∷ bs

drop-byte_at : (p : List ℕ) (h : ℕ) → h < length p → drop h p ≡ byte_at p h ∷ drop (h + 1) p
drop-byte_at [] h e = absurd (omega arith)
drop-byte_at (x ∷ p) zero e = refl
drop-byte_at (x ∷ p) (suc h) e =
    let n : suc h + 1 ≡ suc (h + 1) = omega arith in rw n (drop-byte_at p h (omega arith))

-- The loop, from `first = head` and `actual` the bytes that are left, ends behind them, with a
-- `first` and `actual` that name the address without its leading zeros.
record Stripped (p : List ℕ) (n h : ℕ) (k : Packet) : Type 0 where
  first : ℕ
  actual : ℕ
  ends : strip_loop p n h n h k ≡ go (first, actual) (h + n) k
  inside : first + actual ≡ h + n
  address : take actual (drop first p) ≡ strip_zeros (take n (drop h p))

strip_loop-zero :
    (p : List ℕ) (n first actual h : ℕ) (k : Packet)
    → h < length p
    → byte_at p h ≡ 0
    → strip_loop p (suc n) first actual h k ≡ strip_loop p n (h + 1) (actual - 1) (h + 1) k
unfolding strip_loop
strip_loop-zero p n first actual h k inside z = ground (arith, get_elem?-byte_at p h)

strip_loop-other :
    (p : List ℕ) (n first actual h : ℕ) (k : Packet)
    → h < length p
    → (byte_at p h == 0) ≡ false
    → strip_loop p (suc n) first actual h k ≡ go (first, actual) (h + 1 + (actual - 1)) k
unfolding strip_loop
strip_loop-other p n first actual h k inside z = ground (arith, get_elem?-byte_at p h)

strip_first :
    (p : List ℕ) (n h : ℕ) (k : Packet)
    → h + suc n ≤ length p
    → Stripped p n (h + 1) k
    → Stripped p (suc n) h k
unfolding strip_zeros
strip_first p n h k e r = elim (Bool-cases (byte_at p h == 0)) [
  | inl z ↦ record {
    first = r.first;
    actual = r.actual;
    ends =
        strip_loop-zero p n h (suc n) h k (omega arith) (omega tests)
        ∙ (let s : suc n - 1 ≡ n = omega arith in rw s (r.ends ∙ ground arith));
    inside = omega (arith, r.inside);
    address = rw (drop-byte_at p h (omega arith), z) r.address;
  }
  | inr z ↦ record {
    first = h;
    actual = suc n;
    ends = strip_loop-other p n h (suc n) h k (omega arith) z ∙ ground arith;
    inside = refl;
    address = rw (drop-byte_at p h (omega arith), z);
  }
]

strip_loop-Stripped : (p : List ℕ) (n h : ℕ) (k : Packet) → h + n ≤ length p → Stripped p n h k
strip_loop-Stripped p zero h k e = record {
  first = h;
  actual = 0;
  ends = unfold strip_loop in ground arith;
  inside = refl;
  address = unfold strip_zeros in refl;
}
strip_loop-Stripped p (suc n) h k e =
    strip_first p n h k e (strip_loop-Stripped p n (h + 1) k (omega arith))

-- The reply address of a command, read from `size` bytes inside the span: those bytes without the
-- zeros in front, and `head` ends behind all of them.
pub read_reply_address-eq :
    (p : List ℕ) (size h : ℕ) (k : Packet)
    → h + size ≤ length p
    → read_reply_address p size h k
      ≡ go tt (h + size) (record k { reply_address = strip_zeros (take size (drop h p)) })
unfolding read_reply_address
read_reply_address-eq p size h k e =
    let s = strip_loop-Stripped p size h k e in
    let fits : leb (s.first + s.actual) (length p) ≡ true = ground (arith, s.inside) in
    ground (arith, s.ends, fits, s.address)
