-- ===== src/Base/Bits/Digits.antt =====
-- One equation for the lowest digit of `|`, `&` and `^`, from the digit recursion behind them.
use Prim.Native.Nat.{ℕ, zero, suc, ◌+◌, ◌*◌, ◌/◌, ◌%◌, ◌≤◌, ◌<◌, min, max}
use Prim.Native.Nat.{bit_and, bit_or, bit_xor, digits, differ}
use Prim.Native.Nat.{bit_and-bitwise, bit_or-bitwise, bit_xor-bitwise}
use mathlib.Core.Path.{◌≡◌, refl}
use native.Mathlib.Omega.{arith}

-- The digit recursion does not depend on its fuel.
module _ (z : ℕ → ℕ) (f : ℕ → ℕ → ℕ) where
  digits_enough : (x y n m : ℕ) → x ≤ n → x ≤ m → digits z f m x y ≡ digits z f n x y
  digits_enough x y zero zero p q = refl
  digits_enough zero y zero (suc m) p q = refl
  digits_enough (suc x) y zero (suc m) p q = absurd (omega arith)
  digits_enough zero y (suc n) zero p q = refl
  digits_enough (suc x) y (suc n) zero p q = absurd (omega arith)
  digits_enough zero y (suc n) (suc m) p q = refl
  digits_enough (suc x) y (suc n) (suc m) p q =
      rw (digits_enough (suc x / 2) (y / 2) n m (omega arith) (omega arith))

  lowest_digit :
      (x y : ℕ)
      → digits z f (suc x) (suc x) y
        ≡ digits z f (suc x / 2) (suc x / 2) (y / 2) * 2 + f (suc x % 2) (y % 2)
  lowest_digit x y =
      rw (digits_enough (suc x / 2) (y / 2) (suc x / 2) x (omega arith) (omega arith))

pub bit_or_digit : (a b : ℕ) → bit_or a b ≡ bit_or (a / 2) (b / 2) * 2 + max (a % 2) (b % 2)
bit_or_digit zero b = simp bit_or-bitwise (omega arith)
bit_or_digit (suc a) b = simp bit_or-bitwise (lowest_digit (λ y. y) max a b)

pub bit_and_digit : (a b : ℕ) → bit_and a b ≡ bit_and (a / 2) (b / 2) * 2 + min (a % 2) (b % 2)
bit_and_digit zero b = simp bit_and-bitwise (omega arith)
bit_and_digit (suc a) b = simp bit_and-bitwise (lowest_digit (λ y. 0) min a b)

pub bit_xor_digit : (a b : ℕ) → bit_xor a b ≡ bit_xor (a / 2) (b / 2) * 2 + differ (a % 2) (b % 2)
bit_xor_digit zero b = simp bit_xor-bitwise (omega arith)
bit_xor_digit (suc a) b = simp bit_xor-bitwise (lowest_digit (λ y. y) differ a b)

pub differ_digits :
    (x y : ℕ)
    → x < 2
    → y < 2
    → (differ x y < 2) × (differ x (differ x y) ≡ y) × (differ x x ≡ 0) × (differ x y ≡ differ y x)
differ_digits zero zero h k = (k, refl, refl, refl)
differ_digits zero (suc zero) h k = (k, refl, refl, refl)
differ_digits zero (suc (suc y)) h k = absurd (omega arith)
differ_digits (suc zero) zero h k = (h, refl, refl, refl)
differ_digits (suc zero) (suc zero) h k = (omega arith, refl, refl, refl)
differ_digits (suc zero) (suc (suc y)) h k = absurd (omega arith)
differ_digits (suc (suc x)) y h k = absurd (omega arith)
