-- ===== src/Node/Receive/Rounds.antt =====
-- A round of recvAndParseOnePacket_ on the last frame of a packet, on a part of it, and on a time
-- code.
use spw_rmap.Base.{
  ℕ, suc, ◌+◌, ◌^◌, ◌≤◌, ◌<◌, ◌≡◌, refl, ap, ◌∙◌, sym, ◌⊎◌, inl, inr, true, not, get_or, some, List,
  [], ◌∷◌, ◌++◌, length, take, le→ltb, length-append, append_assoc, ◌==◌, arith,
}
use spw_rmap.Rmap.{Packet, success, ok, Errc}
use spw_rmap.Parser.Dispatch.{parse}
use spw_rmap.Node.Frame.{frame_header}
use spw_rmap.Node.Send.{auto_resize}
use spw_rmap.Node.Serve.{time_code_packet}
use spw_rmap.Node.Link.{RecvSome, Receiver, Outcome, done, write_at, fail_if, ◌>>◌}
use spw_rmap.Node.Receive.{
  frame_kind, is_time_code_header, recv_local, recv_span, parsed, parse_received, handle_frame,
  receive_frames, last, more, time_code,
}
use spw_rmap.Node.Receive.Exact.{IsStream}
use spw_rmap.Node.Receive.Spans.{
  take-write_at, length-write_at, recv_local-IsStream, recv_span-IsStream,
}
use spw_rmap.Node.Receive.Header.{typed_header, >>=-done, frame_begins}

parse_received-success :
    {S : Type 0} (r : Receiver S) (size : ℕ) (bytes : List ℕ) (k : Packet)
    → size ≤ length r.recv_buf
    → take size r.recv_buf ≡ bytes
    → parse bytes r.packet ≡ some (success, k)
    → parse_received size r ≡ done (ok size) (record r { packet = k })
unfolding parse_received parsed
parse_received-success r size bytes k enough front e =
    rw (le→ltb _ _ enough) (ap (λ o. parsed o size r) (ap (λ b. parse b r.packet) front ∙ e))

pub less_room : {P : Type 0} (n m l : ℕ) → n ≤ m → P ⊎ (m ≤ l) → P ⊎ (n ≤ l)
less_room n m l h (inl p) = inl p
less_room n m l h (inr q) = inr (omega arith)

more_room : {P : Type 0} (n m l : ℕ) → m ≤ l → P ⊎ (n ≤ m) → P ⊎ (n ≤ l)
more_room n m l h (inl p) = inl p
more_room n m l h (inr q) = inr (omega arith)

-- A packet is received: where it ends, the parser has its fields, and the stream stands behind it.
abbrev pub Parsed :
    {S : Type 0} → (S → List ℕ) → Outcome S ℕ → Receiver S → ℕ → Packet → List ℕ → Type 0
Parsed {S} pending outcome r size k rest =
    (buf : List ℕ) × (s' : S) × (outcome
      ≡ done (ok size) (record r { recv_buf = buf; packet = k; stream = s' }))
    × (pending s' ≡ rest)

-- What the rounds on `xs` in a receiver with the bytes `got` so far need.
pub record CanReceive {S : Type 0} (pending : S → List ℕ) (r : Receiver S) (got : List ℕ)
    (stream all : List ℕ) : Type 0 where
  pub up : r.connected ≡ true
  pub streams : pending r.stream ≡ stream
  pub inside : length got ≤ length r.recv_buf
  pub front : take (length got) r.recv_buf ≡ got
  pub small : length got + length all + 2 < 2 ^ 64
  pub room : (r.buffer_policy ≡ auto_resize) ⊎ (length got + length all + 2 ≤ length r.recv_buf)

module _ {S : Type 0} (recv_some : RecvSome S) (pending : S → List ℕ)
    (i : IsStream recv_some pending) where
  pub last_received :
      (rounds : ℕ) (r : Receiver S) (got xs rest : List ℕ) (k : Packet)
      → 0 < length xs
      → CanReceive pending r got ((typed_header 0x00 (length xs) ++ xs) ++ rest) xs
      → parse (got ++ xs) r.packet ≡ some (success, k)
      → Parsed pending
          (receive_frames recv_some (suc rounds) (length got) (length got) r)
          r
          (length got + length xs)
          k
          rest
  unfolding handle_frame frame_kind
  last_received rounds r got xs rest k positive c e =
      let total : ℕ = length got in
      let (buf, s1, begins, p1, enough, longer, same) =
        frame_begins recv_some pending i r c.up total rounds 0x00 (length xs) last (xs ++ rest) refl
          (c.streams ∙ append_assoc (typed_header 0x00 (length xs)) xs rest) positive
          (omega (arith, c.small)) c.inside
          (less_room (total + length xs) _ _ (omega arith) c.room) in
      let r1 : Receiver S = record r { recv_buf = buf; stream = s1 } in
      let (s2, span, p2) =
        recv_span-IsStream recv_some pending i r1 c.up xs rest p1 total (length xs) refl enough in
      let r2 : Receiver S = record r1 { recv_buf = write_at total xs buf; stream = s2 } in
      (
        write_at total xs buf,
        s2,
        begins
            ∙ >>=-done (recv_span recv_some total (length xs)) (λ n. parse_received (total + n)) r1
                r2 (length xs) span
            ∙ parse_received-success r2 (total + length xs) (got ++ xs) k
                (omega (arith, length-write_at total xs buf enough))
                (take-write_at total xs buf enough ∙ ap (λ b. b ++ xs) (same ∙ c.front)) e,
        p2,
      )

  -- A round that leaves the receiver ready for `stream`, with the bytes `got'` of the packet.
  abbrev pub Round : ℕ → Receiver S → List ℕ → List ℕ → List ℕ → List ℕ → Type 0
  Round rounds r got got' stream all =
      (buf : List ℕ) × (s' : S) × CanReceive pending (record r { recv_buf = buf; stream = s' }) got'
        stream all
      × (receive_frames recv_some (suc rounds) (length got) (length got) r
          ≡ receive_frames recv_some rounds (length got') (length got')
              (record r { recv_buf = buf; stream = s' }))

  pub fragment_received :
      (rounds : ℕ) (r : Receiver S) (got xs stream all : List ℕ)
      → 0 < length xs
      → CanReceive pending r got ((typed_header 0x02 (length xs) ++ xs) ++ stream) (xs ++ all)
      → Round rounds r got (got ++ xs) stream all
  unfolding handle_frame frame_kind
  fragment_received rounds r got xs stream all positive c =
      let total : ℕ = length got in
      let size : length (xs ++ all) ≡ length xs + length all = length-append xs all in
      let grown : length (got ++ xs) ≡ total + length xs = length-append got xs in
      let (buf, s1, begins, p1, enough, longer, same) =
        frame_begins recv_some pending i r c.up total rounds 0x02 (length xs) more (xs ++ stream)
          refl (c.streams ∙ append_assoc (typed_header 0x02 (length xs)) xs stream) positive
          (omega (arith, c.small)) c.inside
          (less_room (total + length xs) _ _ (omega arith) c.room) in
      let r1 : Receiver S = record r { recv_buf = buf; stream = s1 } in
      let (s2, span, p2) =
        recv_span-IsStream recv_some pending i r1 c.up xs stream p1 total (length xs) refl enough in
      let buf' : List ℕ = write_at total xs buf in
      let r2 : Receiver S = record r1 { recv_buf = buf'; stream = s2 } in
      let kept : length buf' ≡ length buf = length-write_at total xs buf enough in
      (
        buf',
        s2,
        record {
          up = c.up;
          streams = p2;
          inside = omega arith;
          front =
              ap (λ n. take n buf') grown
              ∙ take-write_at total xs buf enough
              ∙ ap (λ b. b ++ xs) (same ∙ c.front);
          small = omega (arith, c.small);
          room =
              more_room _ (length r.recv_buf) _ (omega arith)
                (less_room (length (got ++ xs) + length all + 2) _ _ (omega arith) c.room);
        },
        begins
            ∙ >>=-done (recv_span recv_some total (length xs))
                (λ n. receive_frames recv_some rounds (total + n) (total + length xs)) r1 r2
                (length xs) span
            ∙ ap (λ n. receive_frames recv_some rounds n n r2) (sym grown),
      )

  pub code_received :
      (rounds : ℕ) (r : Receiver S) (got stream all : List ℕ) (c : ℕ)
      → CanReceive pending r got (time_code_packet c ++ stream) all
      → Round rounds r got got stream all
  unfolding handle_frame frame_kind is_time_code_header time_code_packet frame_header
  code_received rounds r got stream all b c =
      let total : ℕ = length got in
      let (buf, s1, begins, p1, enough, longer, same) =
        frame_begins recv_some pending i r c.up total rounds 0x30 2 time_code (b ∷ 0 ∷ stream) refl
          c.streams (omega arith) (omega (arith, c.small)) c.inside
          (less_room (total + 2) _ _ (omega arith) c.room) in
      let r1 : Receiver S = record r { recv_buf = buf; stream = s1 } in
      let (s2, local, p2) =
        recv_local-IsStream recv_some pending i r1 c.up (b ∷ 0 ∷ []) stream p1 2 refl in
      (
        buf,
        s2,
        record {
          up = c.up;
          streams = p2;
          inside = omega arith;
          front = same ∙ c.front;
          small = c.small;
          room = more_room _ (length r.recv_buf) _ longer c.room;
        },
        begins
            ∙ >>=-done {A = ℕ × List ℕ} (recv_local recv_some 2)
                (λ (x : ℕ × List ℕ).
                  fail_if (not (get_or x.1 1 0 == 0x00)) Errc.bad_message
                  >> receive_frames recv_some rounds total total)
                r1 (record r1 { stream = s2 }) (2, b ∷ 0 ∷ []) local,
      )
