-- ===== src/Crc/Detect.antt =====
-- What the CRC of src/crc.cc detects. The receiver accepts a block when the CRC over the block and
-- its CRC byte is 0.
use spw_rmap.Base.{
  ℕ, zero, suc, ◌+◌, ◌*◌, ◌≡◌, ◌≢◌, ◌↔◌, refl, sym, ap, ◌∙◌, List, [], ◌∷◌, ◌++◌, All, IsByte,
  bit_xor, leb, ◌==◌, ==→eq, if◌then◌else◌, true, arith,
}
use spw_rmap.Base.Bits.{
  all_below, all_below_sound, bit_xor-lt, bit_xor_self, bit_xor-bit_xor, bit_xor_comm,
}
use spw_rmap.Crc.{crc_step, calc_crc}
use spw_rmap.Crc.Laws.{crc_bit, crc_bits, crc_step-eq-crc_bits, calc_crc-append, calc_crc-IsByte}

-- `crc_bit` run backwards.
uncrc_bit : ℕ → ℕ
uncrc_bit r = if leb 128 r then bit_xor r 0xe0 * 2 + 1 else r * 2

uncrc_bits : ℕ → ℕ → ℕ
uncrc_bits zero r = r
uncrc_bits (suc n) r = uncrc_bits n (uncrc_bit r)

undo_table : all_below 256 (λ x. uncrc_bits 8 (crc_bits 8 x) == x) ≡ true
unfolding all_below crc_bits crc_bit uncrc_bits uncrc_bit
undo_table = refl

uncrc_bits-crc_bits : (x : ℕ) → IsByte x → uncrc_bits 8 (crc_bits 8 x) ≡ x
uncrc_bits-crc_bits x h = ==→eq _ x (all_below_sound 256 _ undo_table x h)

-- From two CRC values and two bytes, one round gives the same value only for equal `^`.
crc_step_cancel :
    (c d a b : ℕ)
    → IsByte c
    → IsByte d
    → IsByte a
    → IsByte b
    → crc_step c a ≡ crc_step d b
    → bit_xor c a ≡ bit_xor d b
crc_step_cancel c d a b hc hd ha hb e = cc (
  uncrc_bits-crc_bits (bit_xor c a) (bit_xor-lt 8 c a hc ha),
  uncrc_bits-crc_bits (bit_xor d b) (bit_xor-lt 8 d b hd hb),
  (crc_step-eq-crc_bits c a hc ha).0,
  (crc_step-eq-crc_bits d b hd hb).0,
)

xor_cancel_left : (c a b : ℕ) → IsByte c → bit_xor c a ≡ bit_xor c b → a ≡ b
xor_cancel_left c a b h e = cc (bit_xor-bit_xor 8 c a h, bit_xor-bit_xor 8 c b h)

xor_cancel_right : (c d a : ℕ) → IsByte c → IsByte d → IsByte a → bit_xor c a ≡ bit_xor d a → c ≡ d
xor_cancel_right c d a hc hd ha e =
    xor_cancel_left a c d ha (bit_xor_comm 8 a c ha hc ∙ e ∙ bit_xor_comm 8 d a hd ha)

calc_crc_cancel :
    (ys : List ℕ) (c d : ℕ)
    → All IsByte ys
    → IsByte c
    → IsByte d
    → calc_crc ys c ≡ calc_crc ys d
    → c ≡ d
unfolding calc_crc
calc_crc_cancel [] c d h hc hd e = e
calc_crc_cancel (y ∷ ys) c d h hc hd e = xor_cancel_right c d y hc hd h.0 (
    crc_step_cancel c d y y hc hd h.0 h.0 (
      calc_crc_cancel ys (crc_step c y) (crc_step d y) h.1 (crc_step-eq-crc_bits c y hc h.0).1
        (crc_step-eq-crc_bits d y hd h.0).1 e))

-- Two messages that differ in one byte have different CRCs.
pub one_byte_error :
    (xs ys : List ℕ) (a b : ℕ)
    → All IsByte xs
    → All IsByte ys
    → IsByte a
    → IsByte b
    → a ≢ b
    → calc_crc (xs ++ a ∷ ys) 0 ≢ calc_crc (xs ++ b ∷ ys) 0
one_byte_error xs ys a b hx hy ha hb ne e = ne (xor_cancel_left c a b small steps)
  where
    c : ℕ
    c = calc_crc xs 0

    small : IsByte c
    small = calc_crc-IsByte xs 0 hx (omega arith)

    joined : calc_crc ys (crc_step c a) ≡ calc_crc ys (crc_step c b)
    joined =
        unfold calc_crc in sym (calc_crc-append xs (a ∷ ys) 0) ∙ e ∙ calc_crc-append xs (b ∷ ys) 0

    steps : bit_xor c a ≡ bit_xor c b
    steps = crc_step_cancel c c a b small small ha hb (
        calc_crc_cancel ys _ _ hy (crc_step-eq-crc_bits c a small ha).1
          (crc_step-eq-crc_bits c b small hb).1 joined)

crc_step_self : (c : ℕ) → IsByte c → crc_step c c ≡ 0
crc_step_self c h =
    (crc_step-eq-crc_bits c c h h).0 ∙ rw (bit_xor_self c) (unfold crc_bits crc_bit in refl)

-- The CRC over a message and one more byte is 0 exactly when that byte is the message's CRC.
pub crc_byte_iff :
    (message : List ℕ) (b : ℕ)
    → All IsByte message
    → IsByte b
    → (calc_crc (message ++ b ∷ []) 0 ≡ 0) ↔ (b ≡ calc_crc message 0)
unfolding calc_crc
crc_byte_iff message b h hb = (
  λ e. xor_cancel_left c b c small (
      crc_step_cancel c c b c small small hb small
        (sym appended ∙ e ∙ sym (crc_step_self c small))),
  λ e. appended ∙ ap (crc_step c) e ∙ crc_step_self c small,
)
  where
    c : ℕ
    c = calc_crc message 0

    small : IsByte c
    small = calc_crc-IsByte message 0 h (omega arith)

    appended : calc_crc (message ++ b ∷ []) 0 ≡ crc_step c b
    appended = calc_crc-append message (b ∷ []) 0
