-- ===== src/Parser/Commands/Corrupt.antt =====
-- A read command in which a byte was altered.
use spw_rmap.Base.{
  ℕ, ◌+◌, ◌≡◌, ◌≢◌, ◌∙◌, sym, List, ◌∷◌, ◌++◌, some, length, take, take_all, All, IsByte, arith,
}
use spw_rmap.Crc.{calc_crc}
use spw_rmap.Crc.Detect.{one_byte_error}
use spw_rmap.Rmap.{Packet, success}
use spw_rmap.Parser.Monad.{byte_at}
use spw_rmap.Parser.Commands.{reply_size, parse_read_packet}
use spw_rmap.Parser.Commands.Total.{read_result, parse_read_packet-eq}

abbrev size_of : List ℕ → ℕ
size_of p = 16 + reply_size (byte_at p 2)

read_result-success :
    (p : List ℕ) (k : Packet)
    → (read_result p k).0 ≡ success
    → (length p ≡ size_of p) × (calc_crc (take (size_of p) p) 0 ≡ 0)
read_result-success p k e = ground arith

accepted-crc :
    (p : List ℕ) (k k' : Packet) → parse_read_packet p k ≡ some (success, k') → calc_crc p 0 ≡ 0
accepted-crc p k k' e = rw (← h.0, take_all p) at h.1
  where
    h : (length p ≡ size_of p) × (calc_crc (take (size_of p) p) 0 ≡ 0)
    h = read_result-success p k (ground (arith, sym (parse_read_packet-eq p k) ∙ e))

-- Of two spans that differ in one byte, `parseReadPacket` accepts at most one, whatever the packets
-- before the two calls.
pub parse_read_packet-one_byte :
    (xs ys : List ℕ) (a b : ℕ) (k l k' l' : Packet)
    → All IsByte xs
    → All IsByte ys
    → IsByte a
    → IsByte b
    → a ≢ b
    → parse_read_packet (xs ++ a ∷ ys) k ≡ some (success, k')
    → parse_read_packet (xs ++ b ∷ ys) l ≢ some (success, l')
parse_read_packet-one_byte xs ys a b k l k' l' hx hy ha hb ne e e' =
    one_byte_error xs ys a b hx hy ha hb ne (accepted-crc _ k k' e ∙ sym (accepted-crc _ l l' e'))
