-- ===== src/Builder/Command.antt =====
-- What ReadPacketBuilder and WritePacketBuilder write alike: the padded reply address, and the
-- fields behind it.
use spw_rmap.Base.{
  ℕ, ◌+◌, ◌-◌, ◌*◌, ◌/◌, ◌%◌, ◌^◌, ◌≤◌, ◌≡◌, List, [], ◌∷◌, ◌++◌, length, ◌==◌, if◌then◌else◌, u8,
  shr, bit_and, bit_or, arith, replicate, false, append_assoc,
}
use spw_rmap.Base.Bits.{bit_and-mask, bit_or-disjoint}
use spw_rmap.Rmap.{ok}
use spw_rmap.Builder.Cursor.{
  Writer, ◌>>◌, put, put_all, put_zeros, Writes, Writes-cons, Writes->>, Writes-put,
  Writes-put_zeros, Writes-put_all, Writes-nothing,
}
use spw_rmap.Builder.Layout.{reply_words, padded, command_tail, byte_at-eq}

-- The zeros in front of a reply address of `n` bytes; `size` is `replyAddressSize` behind the
-- rounding.
unfoldable pub put_padding : ℕ → ℕ → Writer
put_padding size n = if size == 0 then ok else put_zeros (size - n)

unfoldable pub put_command_tail : ℕ → ℕ → ℕ → ℕ → ℕ → Writer
put_command_tail initiator id ext addr len = do
  put initiator
  put (u8 (shr id 8))
  put (u8 (bit_and id 0xff))
  put ext
  put (u8 (bit_and (shr addr 24) 0xff))
  put (u8 (bit_and (shr addr 16) 0xff))
  put (u8 (bit_and (shr addr 8) 0xff))
  put (u8 (bit_and (shr addr 0) 0xff))
  put (u8 (bit_and (shr len 16) 0xff))
  put (u8 (bit_and (shr len 8) 0xff))
  put (u8 (bit_and (shr len 0) 0xff))

pub low_byte-eq : (x : ℕ) → u8 (bit_and x 0xff) ≡ x % 256
low_byte-eq x = omega (arith, bit_and-mask 8 x)

pub low_shifted : (x : ℕ) → u8 (bit_and (shr x 0) 0xff) ≡ x % 256
low_shifted x = omega (arith, bit_and-mask 8 (x / 2 ^ 0))

pub put_command_tail-Writes :
    (initiator id ext addr len : ℕ)
    → Writes (put_command_tail initiator id ext addr len) (command_tail initiator id ext addr len)
unfolding put_command_tail
put_command_tail-Writes initiator id ext addr len =
    rw
      (
        low_byte-eq id,
        byte_at-eq addr 24,
        byte_at-eq addr 16,
        byte_at-eq addr 8,
        low_shifted addr,
        byte_at-eq len 16,
        byte_at-eq len 8,
        low_shifted len,
      )
      (Writes-cons (
        Writes-cons (
          Writes-cons (
            Writes-cons (
              Writes-cons (
                Writes-cons
                  (Writes-cons (Writes-cons (Writes-cons (Writes-cons (Writes-put)))))))))))

-- The word count does not meet the flags above it: `|=` adds it.
pub or_words :
    (i n : ℕ)
    → n ≤ 12
    → i % 4 ≡ 0
    → i ≤ 0x7c
    → (if n == 0 then i else u8 (bit_or i (shr ((n + 3) / 4 * 4) 2))) ≡ i + (n + 3) / 4
or_words i n h m k = ground (arith, bit_or-disjoint 2 (i / 4) ((n + 3) / 4))

put_padding-Writes :
    (reply : List ℕ)
    → Writes
        (put_padding (reply_words reply * 4) (length reply))
        (replicate (reply_words reply * 4 - length reply) 0)
unfolding put_padding
put_padding-Writes [] = Writes-nothing
put_padding-Writes (b ∷ bs) =
    let e : (reply_words (b ∷ bs) * 4 == 0) ≡ false = ground arith in rw e (Writes-put_zeros _)

-- The padded reply address, and what a step writes behind it.
pub Writes-padded :
    (reply : List ℕ) {m : Writer} {bs : List ℕ}
    → Writes m bs
    → Writes
        (put_padding (reply_words reply * 4) (length reply) >> (put_all reply >> m))
        (padded reply ++ bs)
Writes-padded reply {m} {bs} p =
    rw (append_assoc (replicate (reply_words reply * 4 - length reply) 0) reply bs)
      (Writes->> (put_padding-Writes reply) (Writes->> (Writes-put_all reply) p))
