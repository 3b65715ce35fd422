-- ===== src/Crc/Tests.antt =====
-- The CRC at concrete messages.
use spw_rmap.Base.{ℕ, ◌≡◌, ◌≢◌, ◌↔◌, refl, List, [], ◌∷◌, ◌++◌, arith}
use spw_rmap.Crc.{calc_crc, crc_lookup_table}
use spw_rmap.Crc.Laws.{bitwise_crc, calc_crc-eq-bitwise_crc}
use spw_rmap.Crc.Detect.{one_byte_error, crc_byte_iff}

abbrev message : List ℕ
message = 0x01 ∷ 0xfe ∷ 0x7d ∷ []

calc_crc-message : calc_crc (0x01 ∷ 0x02 ∷ []) 0 ≡ 0x8e
unfolding calc_crc crc_lookup_table
calc_crc-message = refl

calc_crc-eq-bitwise_crc_example : calc_crc message 0x31 ≡ bitwise_crc message 0x31
calc_crc-eq-bitwise_crc_example = calc_crc-eq-bitwise_crc message 0x31 (omega arith) (omega arith)

one_byte_error_example : calc_crc (message ++ 5 ∷ message) 0 ≢ calc_crc (message ++ 6 ∷ message) 0
one_byte_error_example =
    one_byte_error message message 5 6 (omega arith) (omega arith) (omega arith) (omega arith)
      (omega arith)

crc_byte_iff_example : (calc_crc (message ++ 0x97 ∷ []) 0 ≡ 0) ↔ (0x97 ≡ calc_crc message 0)
crc_byte_iff_example = crc_byte_iff message 0x97 (omega arith) (omega arith)
