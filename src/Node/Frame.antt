-- ===== src/Node/Frame.antt =====
-- The frames that SpwRmapTCPNodeImpl puts around packets on TCP
-- (include/spw_rmap/internal/spw_rmap_tcp_node_impl.hh).
pub mod Laws
use spw_rmap.Base.{
  ℕ, ◌*◌, ◌^◌, List, [], ◌∷◌, length, get_or, ltb, if◌then◌else◌, u8, shr, bit_and, bit_or,
}
use spw_rmap.Rmap.{Result, ok, err, Errc, ErrorCode}

-- The 12 bytes that send_ writes in front of a packet.
unfoldable pub frame_header : ℕ → List ℕ
frame_header total_size =
    0x00
    ∷ 0x00
    ∷ 0x00
    ∷ 0x00
    ∷ u8 (bit_and (shr total_size 56) 0xff)
    ∷ u8 (bit_and (shr total_size 48) 0xff)
    ∷ u8 (bit_and (shr total_size 40) 0xff)
    ∷ u8 (bit_and (shr total_size 32) 0xff)
    ∷ u8 (bit_and (shr total_size 24) 0xff)
    ∷ u8 (bit_and (shr total_size 16) 0xff)
    ∷ u8 (bit_and (shr total_size 8) 0xff)
    ∷ u8 (bit_and (shr total_size 0) 0xff)
    ∷ []

-- A byte of the header as a uint64_t, shifted; a byte fits below bit 64.
abbrev pub shifted : List ℕ → ℕ → ℕ → ℕ
shifted header i k = get_or header i 0 * 2 ^ k

unfoldable pub calculate_data_length : List ℕ → Result ℕ
calculate_data_length header =
    if ltb (length header) 12
    then err (ErrorCode.errc Errc.invalid_argument)
    else ok (
        bit_or
          (bit_or
            (bit_or
              (bit_or
                (bit_or
                  (bit_or (bit_or (shifted header 4 56) (shifted header 5 48))
                    (shifted header 6 40))
                  (shifted header 7 32))
                (shifted header 8 24))
              (shifted header 9 16))
            (shifted header 10 8))
          (shifted header 11 0))
