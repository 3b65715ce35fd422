-- ===== src/Parser/Fields.antt =====
-- The parts of a command that `parseReadPacket` and `parseWritePacket` read alike.
pub mod Total
pub mod Numbers
use spw_rmap.Base.{
  ℕ, zero, suc, ◌+◌, ◌-◌, ◌*◌, ◌%◌, ◌^◌, ◌≤◌, ◌<◌, ◌≡◌, refl, List, [], ◌∷◌, Bool, true, false,
  length, get_elem?, take, drop, bit_or, ◌==◌, arith,
}
use spw_rmap.Rmap.{Packet}
use spw_rmap.Parser.Monad.{
  Outcome, go, M, ◌>>=◌, ◌>>◌, pure, modify, or_fault, get_head, skip, next, subspan, byte_at,
  get_elem?-byte_at,
}

-- The loop over the `n` bytes of the reply address that are left; `first` and `actual` are
-- replyAddressFirstByte and replyAddressActualSize.
unfoldable pub strip_loop : List ℕ → ℕ → ℕ → ℕ → M (ℕ × ℕ)
strip_loop p zero first actual = pure (first, actual)
strip_loop p (suc n) first actual = do
  b ← next p
  head ← get_head
  elim (b == 0x00) [
    | true ↦ strip_loop p n head (actual - 1)
    | false ↦ skip (actual - 1) >> pure (first, actual)
  ]

unfoldable pub read_reply_address : List ℕ → ℕ → M (Unit {0})
read_reply_address p size = do
  head ← get_head
  (first, actual) ← strip_loop p size head size
  reply ← or_fault (subspan p first actual)
  modify (λ k. record k { reply_address = reply })

-- `packet_.f |= (packet[head++] << shift)`, at the width of the field.
abbrev pub or_shifted : ℕ → ℕ → ℕ → ℕ → ℕ
or_shifted width acc b shift = bit_or acc (b * 2 ^ shift) % 2 ^ width

unfoldable pub read_command_tail : List ℕ → M (Unit {0})
read_command_tail p = do
  initiator ← next p
  modify (λ k. record k { initiator_logical_address = initiator; transaction_id = 0 })
  i1 ← next p
  modify (λ k. record k { transaction_id = or_shifted 16 k.transaction_id i1 8 })
  i0 ← next p
  modify (λ k. record k { transaction_id = or_shifted 16 k.transaction_id i0 0 })
  ext ← next p
  modify (λ k. record k { extended_address = ext; address = 0 })
  a3 ← next p
  modify (λ k. record k { address = or_shifted 32 k.address a3 24 })
  a2 ← next p
  modify (λ k. record k { address = or_shifted 32 k.address a2 16 })
  a1 ← next p
  modify (λ k. record k { address = or_shifted 32 k.address a1 8 })
  a0 ← next p
  modify (λ k. record k { address = or_shifted 32 k.address a0 0; data_length = 0 })
  l2 ← next p
  modify (λ k. record k { data_length = or_shifted 32 k.data_length l2 16 })
  l1 ← next p
  modify (λ k. record k { data_length = or_shifted 32 k.data_length l1 8 })
  l0 ← next p
  modify (λ k. record k { data_length = or_shifted 32 k.data_length l0 0 })
