-- ===== src/Node/Receive/Header.antt =====
-- A round of recvAndParseOnePacket_ on the header of a frame.
use spw_rmap.Base.{
  ℕ, suc, ◌+◌, ◌^◌, ◌≤◌, ◌<◌, ◌≡◌, refl, ap, ◌∙◌, ◌⊎◌, Bool, true, false, some, List, ◌∷◌, ◌++◌,
  length, take, drop, ◌==◌, arith,
}
use spw_rmap.Rmap.{ok, Errc}
use spw_rmap.Node.Frame.{frame_header, calculate_data_length}
use spw_rmap.Node.Frame.Laws.{calculate_data_length-frame_header}
use spw_rmap.Node.Send.{auto_resize}
use spw_rmap.Node.Link.{RecvSome, Receiver, done, followed, M, pure, lift, fail_if, ◌>>◌, ◌>>=◌}
use spw_rmap.Node.Receive.{
  FrameKind, frame_kind, recv_local, reserve, check_kind, check_header, handle_frame, after_header,
  receive_frames,
}
use spw_rmap.Node.Receive.Exact.{IsStream}
use spw_rmap.Node.Receive.Spans.{recv_local-IsStream, reserve-room}

-- A frame's header with a type byte.
abbrev pub typed_header : ℕ → ℕ → List ℕ
typed_header t n = t ∷ drop 1 (frame_header n)

pub >>=-done :
    {S A B : Type 0} (m : M S A) (f : A → M S B) (r r' : Receiver S) (a : A)
    → m r ≡ done (ok a) r'
    → ◌>>=◌ m f r ≡ f a r'
>>=-done m f r r' a e = ap (λ o. followed o f) e

length-typed_header : (t n : ℕ) → length (typed_header t n) ≡ 12
unfolding frame_header
length-typed_header t n = refl

length_of : (t n : ℕ) → n < 2 ^ 64 → calculate_data_length (typed_header t n) ≡ ok n
unfolding calculate_data_length frame_header
length_of t n small = calculate_data_length-frame_header n small

positive-test : (n : ℕ) → 0 < n → n == 0 ≡ false
positive-test n h = ground arith

check_header-typed_header :
    {S : Type 0} (r : Receiver S) (t n : ℕ) (kind : FrameKind)
    → frame_kind t ≡ some kind
    → 0 < n
    → n < 2 ^ 64
    → check_header (typed_header t n) r ≡ done (ok (kind, n)) r
unfolding check_header check_kind frame_header
check_header-typed_header r t n kind e positive small =
    let h : List ℕ = typed_header t n in
    ap (λ o. check_kind o h r) e
    ∙ >>=-done {A = ℕ} (lift (calculate_data_length h))
        (λ m. fail_if (m == 0) Errc.bad_message >> pure (kind, m)) r r n
        (ap (λ x. done x r) (length_of t n small))
    ∙ ap
        (λ (b : Bool).
          ◌>>=◌ {B = FrameKind × ℕ} (fail_if b Errc.bad_message) (λ _. pure (kind, n)) r)
        (positive-test n positive)

-- One round on the header of a frame.
module _ {S : Type 0} (recv_some : RecvSome S) (pending : S → List ℕ)
    (i : IsStream recv_some pending) (r : Receiver S) (up : r.connected ≡ true) (total : ℕ) where
  -- A round behind the check of its header.
  abbrev pub handled : ℕ → ℕ → FrameKind × ℕ → M S ℕ
  handled rounds t x = reserve total total x.1 >>= λ at.
      handle_frame recv_some (receive_frames recv_some rounds) x.0 (typed_header t x.1) x.1 total at

  pub header_begins :
      (rounds t n : ℕ) (kind : FrameKind) (body : List ℕ)
      → frame_kind t ≡ some kind
      → pending r.stream ≡ typed_header t n ++ body
      → 0 < n
      → n < 2 ^ 64
      → (s' : S) × (receive_frames recv_some (suc rounds) total total r
          ≡ handled rounds t (kind, n) (record r { stream = s' }))
        × (pending s' ≡ body)
  unfolding receive_frames after_header
  header_begins rounds t n kind body k e positive small =
      let h : List ℕ = typed_header t n in
      let (s', q, p) =
        recv_local-IsStream recv_some pending i r up h body e 12 (length-typed_header t n) in
      let r' : Receiver S = record r { stream = s' } in
      let rest : FrameKind × ℕ → M S ℕ = λ x. reserve total total x.1 >>= λ at.
      handle_frame recv_some (receive_frames recv_some rounds) x.0 h x.1 total at in
      (
        s',
        >>=-done {A = ℕ × List ℕ} (recv_local recv_some 12)
              (after_header recv_some (receive_frames recv_some rounds) total total) r r' (12, h) q
            ∙ >>=-done {A = FrameKind × ℕ} (check_header h) rest r' r' (kind, n)
                (check_header-typed_header r' t n kind k positive small),
        p,
      )

  pub frame_begins :
      (rounds t n : ℕ) (kind : FrameKind) (body : List ℕ)
      → frame_kind t ≡ some kind
      → pending r.stream ≡ typed_header t n ++ body
      → 0 < n
      → total + n < 2 ^ 64
      → total ≤ length r.recv_buf
      → (r.buffer_policy ≡ auto_resize) ⊎ (total + n ≤ length r.recv_buf)
      → (buf : List ℕ) × (s' : S) × (receive_frames recv_some (suc rounds) total total r
          ≡ handle_frame recv_some
              (receive_frames recv_some rounds)
              kind
              (typed_header t n)
              n
              total
              total
              (record r { recv_buf = buf; stream = s' }))
        × (pending s' ≡ body)
        × (total + n ≤ length buf)
        × (length r.recv_buf ≤ length buf)
        × (take total buf ≡ take total r.recv_buf)
  frame_begins rounds t n kind body k e positive small inside room =
      let (s', q, p) = header_begins rounds t n kind body k e positive (omega arith) in
      let r' : Receiver S = record r { stream = s' } in
      let (buf, g, enough, longer, same) = reserve-room r' total n inside small room in
      let rest : ℕ → M S ℕ = λ at.
        handle_frame recv_some (receive_frames recv_some rounds) kind (typed_header t n) n total
          at in
      (
        buf,
        s',
        q
            ∙ >>=-done (reserve total total n) rest r' (record r { recv_buf = buf; stream = s' })
                total g,
        p,
        enough,
        longer,
        same,
      )
