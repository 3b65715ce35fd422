-- ===== src/Node/Frame/Laws.antt =====
-- The length in a frame's header is read back by the receiver.
use spw_rmap.Base.{ℕ, ◌+◌, ◌*◌, ◌/◌, ◌%◌, ◌^◌, ◌<◌, ◌≡◌, refl, ap, ◌∙◌, u8, bit_and, bit_or, arith}
use spw_rmap.Base.Bits.{bit_and-mask, bit_or-disjoint}
use spw_rmap.Rmap.{ok}
use spw_rmap.Node.Frame.{frame_header, calculate_data_length}

byte_of : (x : ℕ) → u8 (bit_and x 0xff) ≡ x % 256
byte_of x = omega (arith, bit_and-mask 8 x)

-- A term below bit `k` joins the bits from `k` on.
or_next : (k q term r : ℕ) → term < 2 ^ k → q * 2 ^ k + term ≡ r → bit_or (q * 2 ^ k) term ≡ r
or_next k q term r h e = bit_or-disjoint k q term h ∙ e

-- Eight bytes, highest first, give back the number whose bytes they are.
joined_bytes :
    (x : ℕ)
    → x < 2 ^ 64
    → bit_or
        (bit_or
          (bit_or
            (bit_or
              (bit_or
                (bit_or
                  (bit_or (x / 2 ^ 56 % 256 * 2 ^ 56) (x / 2 ^ 48 % 256 * 2 ^ 48))
                  (x / 2 ^ 40 % 256 * 2 ^ 40))
                (x / 2 ^ 32 % 256 * 2 ^ 32))
              (x / 2 ^ 24 % 256 * 2 ^ 24))
            (x / 2 ^ 16 % 256 * 2 ^ 16))
          (x / 2 ^ 8 % 256 * 2 ^ 8))
        (x / 2 ^ 0 % 256 * 2 ^ 0)
      ≡ x
joined_bytes x h =
    let top : x / 2 ^ 56 % 256 ≡ x / 2 ^ 56 = omega arith in
    rw
      (
        top,
        or_next 56 (x / 2 ^ 56) (x / 2 ^ 48 % 256 * 2 ^ 48) (x / 2 ^ 48 * 2 ^ 48) (omega arith)
            (omega arith),
        or_next 48 (x / 2 ^ 48) (x / 2 ^ 40 % 256 * 2 ^ 40) (x / 2 ^ 40 * 2 ^ 40) (omega arith)
            (omega arith),
        or_next 40 (x / 2 ^ 40) (x / 2 ^ 32 % 256 * 2 ^ 32) (x / 2 ^ 32 * 2 ^ 32) (omega arith)
            (omega arith),
        or_next 32 (x / 2 ^ 32) (x / 2 ^ 24 % 256 * 2 ^ 24) (x / 2 ^ 24 * 2 ^ 24) (omega arith)
            (omega arith),
        or_next 24 (x / 2 ^ 24) (x / 2 ^ 16 % 256 * 2 ^ 16) (x / 2 ^ 16 * 2 ^ 16) (omega arith)
            (omega arith),
        or_next 16 (x / 2 ^ 16) (x / 2 ^ 8 % 256 * 2 ^ 8) (x / 2 ^ 8 * 2 ^ 8) (omega arith)
            (omega arith),
        or_next 8 (x / 2 ^ 8) (x / 2 ^ 0 % 256 * 2 ^ 0) x (omega arith) (omega arith),
      )
      refl

-- For every size of 64 bits the receiver's calculateDataLength reads the size that send_ wrote into
-- the header of its frame.
pub calculate_data_length-frame_header :
    (total_size : ℕ)
    → total_size < 2 ^ 64
    → calculate_data_length (frame_header total_size) ≡ ok total_size
unfolding calculate_data_length frame_header
calculate_data_length-frame_header x h = ap ok (
    simp
      (
        byte_of (x / 2 ^ 56),
        byte_of (x / 2 ^ 48),
        byte_of (x / 2 ^ 40),
        byte_of (x / 2 ^ 32),
        byte_of (x / 2 ^ 24),
        byte_of (x / 2 ^ 16),
        byte_of (x / 2 ^ 8),
        byte_of (x / 2 ^ 0),
      )
      (joined_bytes x h))
