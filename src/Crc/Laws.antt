-- ===== src/Crc/Laws.antt =====
-- The table of src/crc.cc against the bitwise definition of the RMAP CRC.
use spw_rmap.Base.{
  ℕ, zero, suc, ◌/◌, ◌%◌, ◌≡◌, refl, ap, ◌∙◌, List, [], ◌∷◌, ◌++◌, All, IsByte, bit_xor, get_or,
  ltb, ◌==◌, true, if◌then◌else◌, ◌&&◌, arith,
}
use spw_rmap.Base.Bits.{all_below, all_below_sound, bit_xor-lt}
use spw_rmap.Crc.{crc_lookup_table, crc_step, calc_crc}

-- One bit of the CRC: shift right, and add the polynomial x^8 + x^2 + x + 1, bits reversed.
unfoldable pub crc_bit : ℕ → ℕ
crc_bit r = if r % 2 == 1 then bit_xor (r / 2) 0xe0 else r / 2

unfoldable pub crc_bits : ℕ → ℕ → ℕ
crc_bits zero r = r
crc_bits (suc n) r = crc_bits n (crc_bit r)

-- The CRC of a message, bit by bit.
unfoldable pub bitwise_crc : List ℕ → ℕ → ℕ
bitwise_crc [] crc = crc
bitwise_crc (byte ∷ rest) crc = bitwise_crc rest (crc_bits 8 (bit_xor crc byte))

abbrev entry : ℕ → ℕ
entry x = get_or crc_lookup_table x 0

table_entries : all_below 256 (λ x. (entry x == crc_bits 8 x) && ltb (entry x) 256) ≡ true
unfolding all_below crc_lookup_table crc_bits crc_bit
table_entries = refl

table_entry : (x : ℕ) → IsByte x → (entry x ≡ crc_bits 8 x) × IsByte (entry x)
table_entry x h = ground (
  arith,
  all_below_sound 256 (λ x. (entry x == crc_bits 8 x) && ltb (entry x) 256) table_entries x,
)

pub crc_step-eq-crc_bits :
    (crc byte : ℕ)
    → IsByte crc
    → IsByte byte
    → (crc_step crc byte ≡ crc_bits 8 (bit_xor crc byte)) × IsByte (crc_step crc byte)
unfolding crc_step
crc_step-eq-crc_bits crc byte h k = table_entry (bit_xor crc byte) (bit_xor-lt 8 crc byte h k)

-- On bytes, the table gives the CRC that the bitwise definition gives, whatever the start value.
pub calc_crc-eq-bitwise_crc :
    (message : List ℕ) (crc : ℕ)
    → All IsByte message
    → IsByte crc
    → calc_crc message crc ≡ bitwise_crc message crc
unfolding calc_crc bitwise_crc
calc_crc-eq-bitwise_crc [] crc h k = refl
calc_crc-eq-bitwise_crc (byte ∷ rest) crc h k =
    let (e, small) = crc_step-eq-crc_bits crc byte k h.0 in
    calc_crc-eq-bitwise_crc rest (crc_step crc byte) h.1 small ∙ ap (bitwise_crc rest) e

pub calc_crc-IsByte :
    (message : List ℕ) (crc : ℕ) → All IsByte message → IsByte crc → IsByte (calc_crc message crc)
unfolding calc_crc
calc_crc-IsByte [] crc h k = k
calc_crc-IsByte (byte ∷ rest) crc h k =
    calc_crc-IsByte rest (crc_step crc byte) h.1 (crc_step-eq-crc_bits crc byte k h.0).1

-- The CRC of a message in two parts goes on from the CRC of the first.
pub calc_crc-append :
    (xs ys : List ℕ) (crc : ℕ) → calc_crc (xs ++ ys) crc ≡ calc_crc ys (calc_crc xs crc)
unfolding calc_crc
calc_crc-append [] ys crc = refl
calc_crc-append (x ∷ xs) ys crc = calc_crc-append xs ys (crc_step crc x)
