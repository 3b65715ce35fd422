-- ===== src/Parser/Fields/Numbers.antt =====
-- The integers of a packet, read byte by byte with `|=` and shifts, are the numbers that their
-- bytes spell, highest byte first.
use spw_rmap.Base.{ℕ, ◌+◌, ◌*◌, ◌/◌, ◌%◌, ◌^◌, ◌<◌, ◌≡◌, ◌∙◌, IsByte, arith}
use spw_rmap.Base.Bits.{bit_or-disjoint, zero-bit_or}
use spw_rmap.Parser.Fields.{or_shifted}

-- A byte below a number whose low byte is free.
or_low :
    (q b : ℕ) → q * 2 ^ 8 + b < 2 ^ 32 → IsByte b → or_shifted 32 (q * 2 ^ 8) b 0 ≡ q * 2 ^ 8 + b
or_low q b fits h = ground (arith, bit_or-disjoint 8 q b)

or_first : (b shift : ℕ) → b * 2 ^ shift < 2 ^ 32 → or_shifted 32 0 b shift ≡ b * 2 ^ shift
or_first b shift h = ground (arith, zero-bit_or (b * 2 ^ shift))

pub read_u16 :
    (a b : ℕ) → IsByte a → IsByte b → or_shifted 16 (or_shifted 16 0 a 8) b 0 ≡ a * 256 + b
read_u16 a b ha hb = ground (arith, zero-bit_or (a * 2 ^ 8), bit_or-disjoint 8 a b)

abbrev pub be24 : ℕ → ℕ → ℕ → ℕ
be24 c b a = or_shifted 32 (or_shifted 32 (or_shifted 32 0 c 16) b 8) a 0

abbrev pub be32 : ℕ → ℕ → ℕ → ℕ → ℕ
be32 d c b a = or_shifted 32 (or_shifted 32 (or_shifted 32 (or_shifted 32 0 d 24) c 16) b 8) a 0

pub read_u24 :
    (c b a : ℕ) → IsByte c → IsByte b → IsByte a → be24 c b a ≡ c * 2 ^ 16 + b * 2 ^ 8 + a
read_u24 c b a hc hb ha = ground (
  arith,
  zero-bit_or (c * 2 ^ 16),
  bit_or-disjoint 16 c (b * 2 ^ 8),
  bit_or-disjoint 8 (c * 2 ^ 8 + b) a,
)

pub read_u32 :
    (d c b a : ℕ)
    → IsByte d
    → IsByte c
    → IsByte b
    → IsByte a
    → be32 d c b a ≡ d * 2 ^ 24 + c * 2 ^ 16 + b * 2 ^ 8 + a
read_u32 d c b a hd hc hb ha = ground (
  arith,
  zero-bit_or (d * 2 ^ 24),
  bit_or-disjoint 24 d (c * 2 ^ 16),
  bit_or-disjoint 16 (d * 2 ^ 8 + c) (b * 2 ^ 8),
  bit_or-disjoint 8 (d * 2 ^ 16 + c * 2 ^ 8 + b) a,
)

-- What the builder writes of a number, read back.
pub u16_round :
    (x : ℕ) → x < 2 ^ 16 → or_shifted 16 (or_shifted 16 0 (x / 2 ^ 8 % 256) 8) (x % 256) 0 ≡ x
u16_round x h = read_u16 (x / 2 ^ 8 % 256) (x % 256) (omega arith) (omega arith) ∙ omega arith

pub u24_round : (x : ℕ) → x < 2 ^ 24 → be24 (x / 2 ^ 16 % 256) (x / 2 ^ 8 % 256) (x % 256) ≡ x
u24_round x h =
    read_u24 (x / 2 ^ 16 % 256) (x / 2 ^ 8 % 256) (x % 256) (omega arith) (omega arith)
      (omega arith)
    ∙ omega arith

pub u32_round :
    (x : ℕ)
    → x < 2 ^ 32
    → be32 (x / 2 ^ 24 % 256) (x / 2 ^ 16 % 256) (x / 2 ^ 8 % 256) (x % 256) ≡ x
u32_round x h =
    read_u32 (x / 2 ^ 24 % 256) (x / 2 ^ 16 % 256) (x / 2 ^ 8 % 256) (x % 256) (omega arith)
      (omega arith) (omega arith) (omega arith)
    ∙ omega arith
