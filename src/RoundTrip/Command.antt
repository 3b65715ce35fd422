-- ===== src/RoundTrip/Command.antt =====
-- The head, the reply address and the fields of a command, as the builders lay them out, read back.
use spw_rmap.Base.{
  ℕ, zero, suc, ◌+◌, ◌-◌, ◌*◌, ◌/◌, ◌%◌, ◌^◌, ◌<◌, ◌≡◌, refl, List, [], ◌∷◌, ◌++◌, true, false, All,
  IsByte, length, take-append, replicate, All-append, ◌==◌, bit_and, if◌then◌else◌, arith, ◌&&◌,
}
use spw_rmap.Base.Bits.{all_below, all_below_sound}
use spw_rmap.Rmap.{Packet}
use spw_rmap.Crc.{calc_crc}
use spw_rmap.Crc.Laws.{calc_crc-IsByte}
use spw_rmap.Crc.Detect.{crc_byte_iff}
use spw_rmap.Builder.Layout.{reply_words, padded, command_tail, length-padded, with_crc}
use spw_rmap.Parser.Monad.{byte_at}
use spw_rmap.Parser.Commands.{reply_size}
use spw_rmap.Parser.Commands.Total.{command_at}
use spw_rmap.Parser.Fields.Numbers.{u16_round, u24_round, u32_round}
use spw_rmap.Parser.Fields.Total.{strip_zeros}
use spw_rmap.Parser.Dispatch.{is_command, is_write}

get_or-append : (xs ys : List ℕ) (k n : ℕ) → n ≡ length xs + k → byte_at (xs ++ ys) n ≡ byte_at ys k
get_or-append [] ys k n e = let e' : n ≡ k = omega arith in rw e'
get_or-append (x ∷ xs) ys k zero e = absurd (omega arith)
get_or-append (x ∷ xs) ys k (suc n) e = get_or-append xs ys k n (omega arith)

bit_table :
    all_below 256 (λ i.
      (bit_and i 0x40 == i / 64 % 2 * 64)
      && (bit_and i 0x20 == i / 32 % 2 * 32)
      && (bit_and i 3 == i % 4))
    ≡ true
unfolding all_below
bit_table = refl

-- The three tests on an instruction, in arithmetic.
pub instruction_bits :
    (i : ℕ)
    → IsByte i
    → (is_command i ≡ (if i / 64 % 2 == 1 then true else false))
      × (is_write i ≡ (if i / 32 % 2 == 1 then true else false))
      × (reply_size i ≡ i % 4 * 4)
instruction_bits i h = ground (arith, all_below_sound 256 _ bit_table i h)

strip_zeros-replicate : (n : ℕ) (xs : List ℕ) → strip_zeros (replicate n 0 ++ xs) ≡ strip_zeros xs
unfolding strip_zeros
strip_zeros-replicate zero xs = refl
strip_zeros-replicate (suc n) xs = strip_zeros-replicate n xs

-- A command packet: a header of these fields, and what follows its CRC's place.
abbrev pub command : ℕ → ℕ → ℕ → List ℕ → List ℕ → List ℕ → List ℕ
command target i key reply fields rest = target ∷ 1 ∷ i ∷ key ∷ (padded reply ++ (fields ++ rest))

pub command_at-command :
    (target i key initiator id ext addr len : ℕ) (reply rest : List ℕ) (k : Packet)
    → reply_size i ≡ reply_words reply * 4
    → id < 2 ^ 16
    → addr < 2 ^ 32
    → len < 2 ^ 24
    → command_at (command target i key reply (command_tail initiator id ext addr len) rest) k
      ≡ record k {
        target_logical_address = target;
        instruction = i;
        key = key;
        reply_address = strip_zeros reply;
        initiator_logical_address = initiator;
        transaction_id = id;
        extended_address = ext;
        address = addr;
        data_length = len;
      }
command_at-command target i key initiator id ext addr len reply rest k hs hid haddr hlen = ground (
  arith,
  hs,
  u16_round id hid,
  u24_round len hlen,
  u32_round addr haddr,
  length-padded reply,
  take-append (padded reply) (command_tail initiator id ext addr len ++ rest),
  strip_zeros-replicate (reply_words reply * 4 - length reply) reply,
  behind 0,
  behind 1,
  behind 2,
  behind 3,
  behind 4,
  behind 5,
  behind 6,
  behind 7,
  behind 8,
  behind 9,
  behind 10,
)
  where
    tail : List ℕ
    tail = command_tail initiator id ext addr len ++ rest

    behind :
        (j : ℕ)
        → byte_at
            (command target i key reply (command_tail initiator id ext addr len) rest)
            (4 + reply_size i + j)
          ≡ byte_at tail j
    behind j =
        get_or-append (target ∷ 1 ∷ i ∷ key ∷ padded reply) tail j (4 + reply_size i + j)
          (omega (arith, hs, length-padded reply))

-- A message of bytes with its CRC has the CRC 0.
pub with_crc-zero : (xs : List ℕ) → All IsByte xs → calc_crc (with_crc xs) 0 ≡ 0
with_crc-zero xs h = (crc_byte_iff xs _ h (calc_crc-IsByte xs 0 h (omega arith))).1 refl

zeros-IsByte : (n : ℕ) → All IsByte (replicate n 0)
zeros-IsByte zero = tt
zeros-IsByte (suc n) = (omega arith, zeros-IsByte n)

pub padded-IsByte : (reply : List ℕ) → All IsByte reply → All IsByte (padded reply)
padded-IsByte reply h = All-append IsByte (replicate _ 0) reply (zeros-IsByte _) h

pub command_tail-IsByte :
    (initiator id ext addr len : ℕ)
    → IsByte initiator
    → IsByte ext
    → All IsByte (command_tail initiator id ext addr len)
command_tail-IsByte initiator id ext addr len hi he = omega arith
