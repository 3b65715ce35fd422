-- ===== src/Node/Receive/Overflow.antt =====
-- The size of recv_buf_ for a frame whose length takes the packet past size_t.
use spw_rmap.Base.{
  ℕ, suc, ◌+◌, ◌-◌, ◌%◌, ◌^◌, ◌≤◌, ◌<◌, ◌≡◌, refl, ap, ◌∙◌, true, some, List, ◌++◌, length, ltb,
  lt→ltb, arith,
}
use spw_rmap.Rmap.{fault}
use spw_rmap.Node.Send.{auto_resize, resize}
use spw_rmap.Node.Send.Room.{length-resize}
use spw_rmap.Node.Link.{RecvSome, Receiver, M, followed, done}
use spw_rmap.Node.Receive.{FrameKind, frame_kind, grow, reserve, handle_frame, receive_frames}
use spw_rmap.Node.Receive.Exact.{IsStream}
use spw_rmap.Node.Receive.Header.{header_begins}
use spw_rmap.Node.Receive.Header.{typed_header}

reserve-wraps :
    {S : Type 0} (r : Receiver S) (total n : ℕ)
    → r.buffer_policy ≡ auto_resize
    → total < 2 ^ 64
    → n < 2 ^ 64
    → 2 ^ 64 ≤ total + n
    → length r.recv_buf - total < n
    → reserve total total n r
      ≡ done fault (record r { recv_buf = resize (total + n - 2 ^ 64) r.recv_buf })
unfolding reserve grow
reserve-wraps {S} r total n auto t m wraps short =
    rw (lt→ltb _ _ short) (ap (λ p. grow p total n r) auto ∙ grow-fault)
  where
    grow-fault :
        grow auto_resize total n r
        ≡ done fault (record r { recv_buf = resize (total + n - 2 ^ 64) r.recv_buf })
    grow-fault =
        let wrap : (total + n) % 2 ^ 64 ≡ total + n - 2 ^ 64 = omega arith in
        let beyond : ltb (length (resize (total + n - 2 ^ 64) r.recv_buf)) total ≡ true =
          lt→ltb _ _ (omega (arith, length-resize (total + n - 2 ^ 64) r.recv_buf)) in
        rw (wrap, beyond) refl

-- recvAndParseOnePacket_ leaves its buffer: with `total` bytes of a packet received and a buffer
-- that may grow, a header of any kind with a length that takes `total` to 2^64 or more, and that
-- does not fit the rest of the buffer, makes the buffer shorter than `total`, and the next span is
-- taken outside of it.
pub receive_frames-wraps :
    {S : Type 0} (recv_some : RecvSome S) (pending : S → List ℕ) (r : Receiver S)
    (rounds total t n : ℕ) (kind : FrameKind) (body : List ℕ)
    → IsStream recv_some pending
    → r.connected ≡ true
    → r.buffer_policy ≡ auto_resize
    → frame_kind t ≡ some kind
    → pending r.stream ≡ typed_header t n ++ body
    → total < 2 ^ 64
    → n < 2 ^ 64
    → 2 ^ 64 ≤ total + n
    → length r.recv_buf - total < n
    → (r' : Receiver S) × (receive_frames recv_some (suc rounds) total total r ≡ done fault r')
      × (length r'.recv_buf < total)
receive_frames-wraps {S} recv_some pending r rounds total t n kind body i up auto k e small m wraps
      short =
    let (s', q, p) =
      header_begins recv_some pending i r up total rounds t n kind body k e (omega arith) m in
    let r1 : Receiver S = record r { stream = s' } in
    let rest : ℕ → M S ℕ = λ at.
      handle_frame recv_some (receive_frames recv_some rounds) kind (typed_header t n) n total at in
    (
      record r1 { recv_buf = resize (total + n - 2 ^ 64) r1.recv_buf },
      q ∙ ap (λ o. followed o rest) (reserve-wraps r1 total n auto small m wraps short),
      omega (arith, length-resize (total + n - 2 ^ 64) r1.recv_buf),
    )
