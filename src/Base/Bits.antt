-- ===== src/Base/Bits.antt =====
-- `|`, `&` and `^` as arithmetic: disjoint fields, low masks, laws of `^`, tables over a byte.
mod Digits
use Digits.{bit_or_digit, bit_and_digit, bit_xor_digit, differ_digits}
use Prim.Native.Nat.{ℕ, zero, suc, ◌+◌, ◌-◌, ◌*◌, ◌/◌, ◌%◌, ◌^◌, ◌≤◌, ◌<◌}
use Prim.Native.Nat.{bit_and, bit_or, bit_xor, bit_or-bitwise, bit_xor-bitwise}
use mathlib.Core.Path.{◌≡◌, refl, sym, ap, ◌∙◌}
use mathlib.Core.Bool.{Bool, true, ◌&&◌}
use native.Mathlib.Nat.{pow-suc, one-le-pow}
use native.Mathlib.Omega.{arith}

-- A test on every number below `n`, by evaluation.
unfoldable pub all_below : ℕ → (ℕ → Bool) → Bool
all_below zero p = true
all_below (suc n) p = p n && all_below n p

pub all_below_sound : (n : ℕ) (p : ℕ → Bool) → all_below n p ≡ true → (x : ℕ) → x < n → p x ≡ true
unfolding all_below
all_below_sound zero p h x lt = absurd (omega arith)
all_below_sound (suc n) p h x lt = ground (arith, all_below_sound n p (ground arith) x)

or-zero_bits : (k a : ℕ) → a < 2 ^ k → bit_or a 0 ≡ a
or-zero_bits zero a h = let e : a ≡ 0 = omega arith in rw e
or-zero_bits (suc k) a h =
    omega
      (arith, pow-suc 2 k, bit_or_digit a 0, or-zero_bits k (a / 2) (omega (arith, pow-suc 2 k)))

id-lt-pow : (a : ℕ) → a < 2 ^ a
id-lt-pow zero = omega arith
id-lt-pow (suc a) = omega (arith, pow-suc 2 a, id-lt-pow a)

pub bit_or-zero : (a : ℕ) → bit_or a 0 ≡ a
bit_or-zero a = or-zero_bits a a (id-lt-pow a)

pub zero-bit_or : (a : ℕ) → bit_or 0 a ≡ a
zero-bit_or a = bit_or-bitwise 0 a

pub mul-pow-suc : (q k : ℕ) → q * 2 ^ suc k ≡ 2 * (q * 2 ^ k)
mul-pow-suc q k = omega (arith, ap (λ (t : ℕ). q * t) (pow-suc 2 k))

-- A field above bit `k` and a value below it do not meet: `|` adds them.
pub bit_or-disjoint : (k q r : ℕ) → r < 2 ^ k → bit_or (q * 2 ^ k) r ≡ q * 2 ^ k + r
bit_or-disjoint zero q r h = ground (arith, bit_or-zero q)
bit_or-disjoint (suc k) q r h = ground (
  arith,
  mul-pow-suc q k,
  pow-suc 2 k,
  bit_or_digit (q * 2 ^ suc k) r,
  bit_or-disjoint k q (r / 2),
)

and-zero_bits : (k a : ℕ) → a < 2 ^ k → bit_and a 0 ≡ 0
and-zero_bits zero a h = let e : a ≡ 0 = omega arith in rw e
and-zero_bits (suc k) a h =
    omega
      (arith, pow-suc 2 k, bit_and_digit a 0, and-zero_bits k (a / 2) (omega (arith, pow-suc 2 k)))

and_split : (k q r : ℕ) → r < 2 ^ k → bit_and (q * 2 ^ k + r) (2 ^ k - 1) ≡ r
and_split zero q r h = omega (arith, and-zero_bits _ (q * 2 ^ 0 + r) (id-lt-pow _))
and_split (suc k) q r h = ground (
  arith,
  mul-pow-suc q k,
  pow-suc 2 k,
  one-le-pow k 2,
  bit_and_digit (q * 2 ^ suc k + r) (2 ^ suc k - 1),
  and_split k q (r / 2),
)

-- `&` with the `k` lowest bits set is the remainder by `2 ^ k`.
pub bit_and-mask : (k a : ℕ) → bit_and a (2 ^ k - 1) ≡ a % 2 ^ k
bit_and-mask k a = ground (arith, one-le-pow k 2, and_split k (a / 2 ^ k) (a % 2 ^ k))

pub bit_xor-lt : (k a b : ℕ) → a < 2 ^ k → b < 2 ^ k → bit_xor a b < 2 ^ k
bit_xor-lt zero a b h h' =
    let e : a ≡ 0 = omega arith in let e' : b ≡ 0 = omega arith in rw (e, e') (omega arith)
bit_xor-lt (suc k) a b h h' = omega (
  arith,
  pow-suc 2 k,
  bit_xor_digit a b,
  differ_digits (a % 2) (b % 2) (omega arith) (omega arith),
  bit_xor-lt k (a / 2) (b / 2) (omega (arith, pow-suc 2 k)) (omega (arith, pow-suc 2 k)),
)

pub bit_xor_self : (a : ℕ) → bit_xor a a ≡ 0
bit_xor_self a = go a a (id-lt-pow a)
  where
    go : (k x : ℕ) → x < 2 ^ k → bit_xor x x ≡ 0
    go zero x h = let e : x ≡ 0 = omega arith in rw e
    go (suc k) x h = omega (
      arith,
      bit_xor_digit x x,
      differ_digits (x % 2) (x % 2) (omega arith) (omega arith),
      go k (x / 2) (omega (arith, pow-suc 2 k)),
    )

xor_halves : (a b : ℕ) → (bit_xor a b / 2 ≡ bit_xor (a / 2) (b / 2)) × (bit_xor a b % 2 < 2)
xor_halves a b =
    omega (arith, bit_xor_digit a b, differ_digits (a % 2) (b % 2) (omega arith) (omega arith))

-- `^` with the same number twice changes nothing.
pub bit_xor-bit_xor : (k a b : ℕ) → a < 2 ^ k → bit_xor a (bit_xor a b) ≡ b
bit_xor-bit_xor zero a b h =
    let e : a ≡ 0 = omega arith in rw (e, bit_xor-bitwise 0 b) (bit_xor-bitwise 0 b)
bit_xor-bit_xor (suc k) a b h = ground (
  arith,
  bit_xor_digit a b,
  bit_xor_digit a (bit_xor a b),
  differ_digits (a % 2) (b % 2),
  bit_xor-bit_xor k (a / 2) (b / 2) (omega (arith, pow-suc 2 k)),
)

pub bit_xor_comm : (k a b : ℕ) → a < 2 ^ k → b < 2 ^ k → bit_xor a b ≡ bit_xor b a
bit_xor_comm zero a b h h' =
    let e : a ≡ 0 = omega arith in let e' : b ≡ 0 = omega arith in rw (e, e')
bit_xor_comm (suc k) a b h h' = omega (
  arith,
  bit_xor_digit a b,
  bit_xor_digit b a,
  differ_digits (a % 2) (b % 2) (omega arith) (omega arith),
  bit_xor_comm k (a / 2) (b / 2) (omega (arith, pow-suc 2 k)) (omega (arith, pow-suc 2 k)),
)
