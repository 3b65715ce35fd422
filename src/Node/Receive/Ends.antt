-- ===== src/Node/Receive/Ends.antt =====
-- Receiving ends on a stream that ends.
use spw_rmap.Base.{
  ℕ, zero, suc, ◌+◌, ◌≤◌, ◌<◌, ◌≡◌, refl, ap, ◌∙◌, ◌⊎◌, inl, inr, Bool, true, false, not, List,
  length, replicate, ◌==◌, get_or, arith,
}
use spw_rmap.Rmap.{Result, ok, err, Errc, ErrorCode}
use spw_rmap.Node.Link.{
  RecvSome, Received, Receiver, Outcome, done, followed, M, ◌>>◌, pure, fail_if, write_at,
}
use spw_rmap.Node.Receive.{
  FrameKind, is_time_code_header, recv_exact, recv_local, recv_span, ignore_bytes, reserve,
  check_header, handle_frame, after_header, receive_frames, receive_packet, last, skipped, more,
  time_code,
}
use spw_rmap.Node.Receive.Takes.{EndsDry, recv_exact-Shrinks}
use spw_rmap.Node.Receive.Steps.{
  followed-Ends, fail_if-Ends, done-Ends, recv_local-Ends, recv_span-Ends, ignore_bytes-Ends,
  reserve-Ends, parse_received-Ends, check_header-Ends,
}

module _ {S : Type 0} (recv_some : RecvSome S) (pending : S → List ℕ)
    (i : EndsDry recv_some pending) where
  abbrev left : S → ℕ
  left s = length (pending s)

  -- A call that ends with at most `b` bytes left.
  abbrev Ends : {A : Type 0} → ℕ → Outcome S A → Type 0
  Ends {A} b o = (x : Result A) × (r : Receiver S) × (o ≡ done x r) × (left r.stream ≤ b)

  -- The rounds behind a frame end when they start with at most `b` bytes left.
  abbrev NextEnds : ℕ → (ℕ → ℕ → M S ℕ) → Type 0
  NextEnds b next = (total pos : ℕ) (r : Receiver S) → left r.stream ≤ b → Ends b (next total pos r)

  handle_frame-Ends :
      (next : ℕ → ℕ → M S ℕ) (kind : FrameKind) (header : List ℕ) (n total at : ℕ) (r : Receiver S)
      (b : ℕ)
      → NextEnds b next
      → left r.stream ≤ b
      → Ends b (handle_frame recv_some next kind header n total at r)
  unfolding handle_frame
  handle_frame-Ends next last header n total at r b h l =
      followed-Ends recv_some pending i b (recv_span recv_some at n r) _
        (recv_span-Ends recv_some pending i at n r b l)
        (λ got r1 l1. parse_received-Ends recv_some pending i (total + got) r1 b l1)
  handle_frame-Ends next skipped header n total at r b h l =
      followed-Ends recv_some pending i b (ignore_bytes recv_some n r) _
        (ignore_bytes-Ends recv_some pending i n r b l) (λ _ r1 l1. h 0 0 r1 l1)
  handle_frame-Ends next more header n total at r b h l =
      followed-Ends recv_some pending i b (recv_span recv_some at n r) _
        (recv_span-Ends recv_some pending i at n r b l)
        (λ got r1 l1. h (total + got) (at + n) r1 l1)
  handle_frame-Ends next time_code header n total at r b h l =
      followed-Ends recv_some pending i b _ _
        (fail_if-Ends recv_some pending i (not (is_time_code_header header)) Errc.bad_message r b l)
        (λ _ r1 l1.
          followed-Ends recv_some pending i b (recv_local recv_some 2 r1) _
            (recv_local-Ends recv_some pending i 2 r1 b l1)
            (λ code r2 l2.
              followed-Ends recv_some pending i b _ _
                (fail_if-Ends recv_some pending i (not (get_or code.1 1 0 == 0x00)) Errc.bad_message
                  r2 b l2)
                (λ _ r3 l3. h total at r3 l3)))

  after_header-Ends :
      (next : ℕ → ℕ → M S ℕ) (total pos : ℕ) (x : ℕ × List ℕ) (r : Receiver S) (b : ℕ)
      → NextEnds b next
      → left r.stream ≤ b
      → Ends b (after_header recv_some next total pos x r)
  unfolding after_header
  after_header-Ends next total pos (zero, header) r b h l = done-Ends recv_some pending i _ r b l
  after_header-Ends next total pos (suc _, header) r b h l =
      followed-Ends recv_some pending i b (check_header header r) _
        (check_header-Ends recv_some pending i header r b l)
        (λ x r1 l1.
          followed-Ends recv_some pending i b (reserve total pos x.1 r1) _
            (reserve-Ends recv_some pending i total pos x.1 r1 b l1)
            (λ at r2 l2. handle_frame-Ends next x.0 header x.1 total at r2 b h l2))

  after_header-zero :
      (next : ℕ → ℕ → M S ℕ) (total pos : ℕ) (header : List ℕ) (r : Receiver S)
      → after_header recv_some next total pos (0, header) r ≡ done (ok 0) r
  unfolding after_header
  after_header-zero next total pos header r = refl

  -- A call that ends; a packet took bytes.
  abbrev pub Progress : ℕ → Outcome S ℕ → Type 0
  Progress b o =
      (x : Result ℕ) × (r : Receiver S) × (o ≡ done x r)
      × (left r.stream ≤ b)
      × ((x ≡ ok 0) ⊎ (((e : ErrorCode) × (x ≡ err e)) ⊎ (left r.stream < b)))

  receive_frames-Progress :
      (rounds total pos : ℕ) (r : Receiver S)
      → left r.stream < rounds
      → Progress (left r.stream) (receive_frames recv_some rounds total pos r)
  unfolding receive_frames recv_local
  receive_frames-Progress zero total pos r h = absurd (omega arith)
  receive_frames-Progress (suc rounds) total pos r h =
      let b : ℕ = left r.stream in
      let x : Received S = recv_exact recv_some r.connected 12 r.stream in
      let r1 : Receiver S = record r { stream = x.2 } in
      let local : Result ℕ → Outcome S (ℕ × List ℕ) =
        λ c. followed (done c r1) (λ count. pure (count, write_at 0 x.1 (replicate 12 0))) in
      let rest : Result ℕ → Outcome S ℕ = λ c.
        followed (local c) (after_header recv_some (receive_frames recv_some rounds) total pos) in
      let (fewer, how) = recv_exact-Shrinks recv_some pending i r.connected 12 r.stream in
      elim how [
        | inl z ↦ absurd (omega arith)
        | inr (inl (e, q)) ↦ (err e, r1, ap rest q, fewer, inr (inl (e, refl)))
        | inr (inr (inl q)) ↦ (
          ok 0,
          r1,
          ap rest q ∙ after_header-zero (receive_frames recv_some rounds) total pos _ r1,
          fewer,
          inl refl,
        )
        | inr (inr (inr lt)) ↦
            let (y, r2, e, l) =
              followed-Ends recv_some pending i (left x.2) (local x.0)
                (after_header recv_some (receive_frames recv_some rounds) total pos)
                (followed-Ends recv_some pending i (left x.2) (done x.0 r1) _
                  (done-Ends recv_some pending i x.0 r1 _ (omega arith))
                  (λ c r3 l3. done-Ends recv_some pending i _ r3 _ l3))
                (λ c r3 l3.
                  after_header-Ends (receive_frames recv_some rounds) total pos c r3 (left x.2)
                    (λ t p r4 l4.
                      let (y, r5, e, l5, _) = receive_frames-Progress rounds t p r4 (omega arith) in
                      (y, r5, e, omega arith))
                    l3) in
            (y, r2, e, omega arith, inr (inr (omega arith)))
      ]

  -- On a stream that ends, recvAndParseOnePacket_ ends, whatever the bytes are: as many rounds as
  -- bytes are left, and one more, are enough. It ends with no bytes, with an error, or with fewer
  -- bytes left.
  pub receive_packet-Progress :
      (rounds : ℕ) (r : Receiver S)
      → left r.stream < rounds
      → Progress (left r.stream) (receive_packet recv_some rounds r)
  unfolding receive_packet
  receive_packet-Progress rounds r h = by_test (not r.connected)
    where
      by_test :
          (t : Bool)
          → Progress
              (left r.stream)
              ((fail_if t Errc.not_connected >> receive_frames recv_some rounds 0 0) r)
      by_test true = (_, r, refl, omega arith, inr (inl (_, refl)))
      by_test false = receive_frames-Progress rounds 0 0 r h
