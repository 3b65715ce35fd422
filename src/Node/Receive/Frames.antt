-- ===== src/Node/Receive/Frames.antt =====
-- A packet that arrives in several frames, with time codes between them.
use spw_rmap.Base.{
  ℕ, zero, suc, ◌+◌, ◌^◌, ◌≤◌, ◌<◌, ◌≡◌, refl, ap, ◌∙◌, subst, ◌⊎◌, true, not, some, List, [], ◌∷◌,
  ◌++◌, length, length-append, append_assoc, arith,
}
use spw_rmap.Rmap.{Packet, success, ok, Errc}
use spw_rmap.Parser.Dispatch.{parse}
use spw_rmap.Node.Send.{auto_resize}
use spw_rmap.Node.Serve.{time_code_packet}
use spw_rmap.Node.Link.{RecvSome, Receiver, done, fail_if, ◌>>◌}
use spw_rmap.Node.Receive.{receive_frames, receive_packet}
use spw_rmap.Node.Receive.Exact.{IsStream}
use spw_rmap.Node.Receive.Header.{typed_header}
use spw_rmap.Node.Receive.Rounds.{
  less_room, Parsed, CanReceive, last_received, fragment_received, code_received,
}

-- What may stand in front of the last frame of a packet: a frame with some of its bytes, or a time
-- code.
pub data Item : Type 0 where
  fragment : List ℕ → Item
  code : ℕ → Item

abbrev pub item_bytes : Item → List ℕ
item_bytes (fragment xs) = typed_header 0x02 (length xs) ++ xs
item_bytes (code c) = time_code_packet c

abbrev pub payload : Item → List ℕ
payload (fragment xs) = xs
payload (code c) = []

-- The bytes of the items and of the last frame, in their order.
abbrev pub wire : List Item → List ℕ → List ℕ
wire [] xs = typed_header 0x00 (length xs) ++ xs
wire (i ∷ is) xs = item_bytes i ++ wire is xs

abbrev pub joined : List Item → List ℕ → List ℕ
joined [] xs = xs
joined (i ∷ is) xs = payload i ++ joined is xs

abbrev pub HasBytes : Item → Type 0
HasBytes (fragment xs) = 0 < length xs
HasBytes (code c) = Unit {0}

abbrev pub AllHaveBytes : List Item → Type 0
AllHaveBytes [] = Unit {0}
AllHaveBytes (i ∷ is) = HasBytes i × AllHaveBytes is

module _ {S : Type 0} (recv_some : RecvSome S) (pending : S → List ℕ)
    (i : IsStream recv_some pending) where
  frames_received :
      (rounds : ℕ) (items : List Item) (r : Receiver S) (got xs rest : List ℕ) (k : Packet)
      → length items < rounds
      → AllHaveBytes items
      → 0 < length xs
      → CanReceive pending r got (wire items xs ++ rest) (joined items xs)
      → parse (got ++ joined items xs) r.packet ≡ some (success, k)
      → Parsed pending
          (receive_frames recv_some rounds (length got) (length got) r)
          r
          (length got + length (joined items xs))
          k
          rest
  frames_received zero items r got xs rest k fuel full positive c e = absurd (omega arith)
  frames_received (suc rounds) [] r got xs rest k fuel full positive c e =
      last_received recv_some pending i rounds r got xs rest k positive c e
  frames_received (suc rounds) (fragment ys ∷ items) r got xs rest k fuel (ys_full, full) positive c
        e =
      let (buf, s1, ready, round) =
        fragment_received recv_some pending i rounds r got ys (wire items xs ++ rest)
          (joined items xs) ys_full
          (subst (λ w. CanReceive pending r got w (ys ++ joined items xs))
            (append_assoc (typed_header 0x02 (length ys) ++ ys) (wire items xs) rest) c) in
      let (buf', s2, outcome, p2) =
        frames_received rounds items (record r { recv_buf = buf; stream = s1 }) (got ++ ys) xs rest
          k (omega arith) full positive ready
          (ap (λ b. parse b r.packet) (append_assoc got ys (joined items xs)) ∙ e) in
      let size : length (got ++ ys) + length (joined items xs)
          ≡ length got + length (ys ++ joined items xs) =
        omega (arith, length-append got ys, length-append ys (joined items xs)) in
      (
        buf',
        s2,
        round
            ∙ outcome
            ∙ ap (λ (n : ℕ). done (ok n) (record r { recv_buf = buf'; packet = k; stream = s2 }))
                size,
        p2,
      )
  frames_received (suc rounds) (code b ∷ items) r got xs rest k fuel (_, full) positive c e =
      let (buf, s1, ready, round) =
        code_received recv_some pending i rounds r got (wire items xs ++ rest) (joined items xs) b (
          subst (λ w. CanReceive pending r got w (joined items xs))
            (append_assoc (time_code_packet b) (wire items xs) rest) c) in
      let (buf', s2, outcome, p2) =
        frames_received rounds items (record r { recv_buf = buf; stream = s1 }) got xs rest k
          (omega arith) full positive ready e in
      (buf', s2, round ∙ outcome, p2)

-- A packet that the backend gives in frames, each with a part of it, and with time codes between
-- them, is received and parsed, if its bytes parse, no part is empty, their number and 2 are less
-- than 2^64, and recv_buf_ may grow or has room for them and 2 bytes more; the stream is left at the
-- first byte behind the last frame.
pub receive_packet-wire :
    {S : Type 0} (recv_some : RecvSome S) (pending : S → List ℕ) (items : List Item)
    (xs rest : List ℕ) (r : Receiver S) (k : Packet)
    → IsStream recv_some pending
    → r.connected ≡ true
    → pending r.stream ≡ wire items xs ++ rest
    → AllHaveBytes items
    → 0 < length xs
    → length (joined items xs) + 2 < 2 ^ 64
    → (r.buffer_policy ≡ auto_resize) ⊎ (length (joined items xs) + 2 ≤ length r.recv_buf)
    → parse (joined items xs) r.packet ≡ some (success, k)
    → Parsed pending
        (receive_packet recv_some (suc (length items)) r)
        r
        (length (joined items xs))
        k
        rest
unfolding receive_packet
receive_packet-wire {S} recv_some pending items xs rest r k i up e full positive small room p =
    let c : CanReceive pending r [] (wire items xs ++ rest) (joined items xs) = record {
      up = up;
      streams = e;
      inside = omega arith;
      front = refl;
      small = omega arith;
      room = less_room _ _ _ (omega arith) room;
    } in
    let (buf, s', outcome, q) =
      frames_received recv_some pending i (suc (length items)) items r [] xs rest k (omega arith)
        full positive c p in
    (
      buf,
      s',
      ap
            (λ b.
              ◌>>◌ {S = S} (fail_if (not b) Errc.not_connected)
                (receive_frames recv_some (suc (length items)) 0 0) r)
            up
          ∙ outcome
          ∙ ap (λ (n : ℕ). done (ok n) (record r { recv_buf = buf; packet = k; stream = s' }))
              (omega arith),
      q,
    )
