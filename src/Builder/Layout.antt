-- ===== src/Builder/Layout.antt =====
-- The layout of RMAP packets, in plain arithmetic, and what the bit operations of
-- src/packet_builder.cc come to.
use spw_rmap.Base.{
  ℕ, ◌+◌, ◌-◌, ◌*◌, ◌/◌, ◌%◌, ◌^◌, ◌≤◌, ◌≡◌, refl, List, [], ◌∷◌, ◌++◌, Bool, length, length-append,
  length-replicate, replicate, ◌==◌, if◌then◌else◌, true, u8, shr, bit_and, Option, none, some, leb,
  arith,
}
use spw_rmap.Base.Bits.{bit_and-mask, all_below, all_below_sound}
use spw_rmap.Crc.{calc_crc}

-- The number of 4-byte words that hold a reply address.
abbrev pub reply_words : List ℕ → ℕ
reply_words reply = (length reply + 3) / 4

-- A reply address with zeros in front, up to whole words.
abbrev pub padded : List ℕ → List ℕ
padded reply = replicate (reply_words reply * 4 - length reply) 0 ++ reply

abbrev pub with_crc : List ℕ → List ℕ
with_crc xs = xs ++ calc_crc xs 0 ∷ []

abbrev pub flag : Bool → ℕ → ℕ
flag b v = if b then v else 0

-- What follows the reply address in a command: initiator, transaction, address and length, each
-- with its highest byte first.
abbrev pub command_tail : ℕ → ℕ → ℕ → ℕ → ℕ → List ℕ
command_tail initiator id ext addr len =
    initiator
    ∷ id / 2 ^ 8 % 256
    ∷ id % 256
    ∷ ext
    ∷ addr / 2 ^ 24 % 256
    ∷ addr / 2 ^ 16 % 256
    ∷ addr / 2 ^ 8 % 256
    ∷ addr % 256
    ∷ len / 2 ^ 16 % 256
    ∷ len / 2 ^ 8 % 256
    ∷ len % 256
    ∷ []

-- `(x >> k) & 0xFF`, and the cast of it.
pub byte_at-eq : (x k : ℕ) → u8 (bit_and (shr x k) 0xff) ≡ x / 2 ^ k % 256
byte_at-eq x k = omega (arith, bit_and-mask 8 (x / 2 ^ k))

-- `replyAddressSize` behind the `assert` and the rounding: `none` where the `assert` fails.
unfoldable pub reply_address_size : ℕ → Option ℕ
reply_address_size n =
    if n == 0 then some 0 else if leb n 12 then some (bit_and (n - 1) 0x0c + 0x04) else none

size_table :
    all_below 13 (λ n. if n == 0 then true else bit_and (n - 1) 0x0c + 0x04 == (n + 3) / 4 * 4)
    ≡ true
unfolding all_below
size_table = refl

pub reply_address_size-eq : (n : ℕ) → n ≤ 12 → reply_address_size n ≡ some ((n + 3) / 4 * 4)
unfolding reply_address_size
reply_address_size-eq n h = ground (arith, all_below_sound 13 _ size_table n)

pub length-padded : (reply : List ℕ) → length (padded reply) ≡ reply_words reply * 4
length-padded reply = omega (
  arith,
  length-append (replicate (reply_words reply * 4 - length reply) 0) reply,
  length-replicate {A = ℕ} (reply_words reply * 4 - length reply) 0,
)

pub length-with_crc : (xs : List ℕ) → length (with_crc xs) ≡ length xs + 1
length-with_crc xs = length-append xs (calc_crc xs 0 ∷ [])
