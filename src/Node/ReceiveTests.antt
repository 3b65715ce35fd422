-- ===== src/Node/ReceiveTests.antt =====
-- The theorems on receiving at concrete streams.
use spw_rmap.Base.{
  ℕ, zero, suc, ◌-◌, ◌^◌, ◌≤◌, ◌<◌, ◌≡◌, ◌≢◌, refl, inl, true, List, [], ◌∷◌, ◌++◌, length, take,
  drop, replicate, arith,
}
use spw_rmap.Rmap.{empty_packet, ok, fault}
use spw_rmap.Builder.Write.Bytes.{write_packet}
use spw_rmap.RoundTrip.Write as WriteTrip
use spw_rmap.Node.Send.{auto_resize, write_config}
use spw_rmap.Node.SendTests.{small_target, sender, two_at_a_time}
use spw_rmap.Node.Link.{Receiver, done}
use spw_rmap.Node.Receive.{receive_packet, receive_frames, frame_kind, more}
use spw_rmap.Node.Receive.Exact.{IsStream}
use spw_rmap.Node.Receive.Frames.{Item, fragment, code, wire, joined, receive_packet-wire}
use spw_rmap.Node.Receive.Rounds.{Parsed}
use spw_rmap.Node.Receive.Header.{typed_header}
use spw_rmap.Node.Receive.Overflow.{receive_frames-wraps}

abbrev pub all : List ℕ → List ℕ
all s = s

pub two_at_a_time-IsStream : IsStream two_at_a_time all
two_at_a_time-IsStream = record { gives = gives }
  where
    gives :
        (n : ℕ) (s : List ℕ)
        → s ≢ []
        → (b : ℕ) × (bs : List ℕ) × ((two_at_a_time (suc n) s).0 ≡ ok (b ∷ bs))
          × (length bs ≤ n)
          × (s ≡ b ∷ bs ++ (two_at_a_time (suc n) s).1)
    gives n [] h = absurd (h refl)
    gives zero (b ∷ s) h = (b, [], refl, omega arith, refl)
    gives (suc n) (b ∷ []) h = (b, [], refl, omega arith, refl)
    gives (suc n) (b ∷ c ∷ s) h = (b, c ∷ [], refl, omega arith, refl)

abbrev pub write_bytes : List ℕ
write_bytes = write_packet (write_config sender small_target 32 0x1000 (7 ∷ 8 ∷ []))

-- The first four bytes of the packet in a frame, and a time code behind them.
abbrev pub items : List Item
items = fragment (take 4 write_bytes) ∷ code 7 ∷ []

abbrev pub last_bytes : List ℕ
last_bytes = drop 4 write_bytes

abbrev pub receiver : List ℕ → Receiver (List ℕ)
receiver s = record {
  connected = true;
  recv_buf = replicate 8 0;
  buffer_policy = auto_resize;
  packet = empty_packet;
  stream = s;
}

receive_packet-wire_example :
    Parsed all
      (receive_packet two_at_a_time 3 (receiver (wire items last_bytes ++ 1 ∷ [])))
      (receiver (wire items last_bytes ++ 1 ∷ []))
      (length (joined items last_bytes))
      (WriteTrip.write_fields
        (write_config sender small_target 32 0x1000 (7 ∷ 8 ∷ []))
        empty_packet)
      (1 ∷ [])
receive_packet-wire_example =
    receive_packet-wire two_at_a_time all items last_bytes (1 ∷ [])
      (receiver (wire items last_bytes ++ 1 ∷ []))
      (WriteTrip.write_fields (write_config sender small_target 32 0x1000 (7 ∷ 8 ∷ []))
        empty_packet)
      two_at_a_time-IsStream refl refl (omega arith) (omega arith) (omega arith) (inl refl)
      (WriteTrip.parse-write_packet (write_config sender small_target 32 0x1000 (7 ∷ 8 ∷ []))
        empty_packet (omega arith))

receive_frames-wraps_example :
    (r' : Receiver (List ℕ)) × (receive_frames two_at_a_time 1 3 3
        (receiver (typed_header 0x02 (2 ^ 64 - 1) ++ 5 ∷ []))
      ≡ done fault r')
    × (length r'.recv_buf < 3)
unfolding frame_kind
receive_frames-wraps_example =
    receive_frames-wraps two_at_a_time all (receiver (typed_header 0x02 (2 ^ 64 - 1) ++ 5 ∷ [])) 0 3
      0x02 (2 ^ 64 - 1) more (5 ∷ []) two_at_a_time-IsStream refl refl refl refl (omega arith)
      (omega arith) (omega arith) (omega arith)
