-- ===== src/Node/Send/Room.antt =====
-- The room in send_buf_, and the frame that send_ makes of a packet in it.
use spw_rmap.Base.{
  ℕ, zero, suc, [], ◌∷◌, ◌+◌, ◌-◌, ◌≤◌, ◌<◌, ◌≡◌, refl, sym, ap, ◌∙◌, ◌⊎◌, inl, inr, List, ◌++◌,
  none, some, length, take, drop, replicate, ltb, arith, le→ltb, ltb→le, Bool-cases, length-append,
  length-replicate, length-take, length-drop, take-append, drop-append, append_assoc,
}
use spw_rmap.Rmap.{Result, ok}
use spw_rmap.Node.Frame.{frame_header}
use spw_rmap.Node.Send.{
  BufferPolicy, auto_resize, SendAll, Sent, resize, make_room, send_frame, with_built, with_room,
}

-- The frame of a packet.
abbrev pub frame : List ℕ → List ℕ
frame packet = frame_header (length packet) ++ packet

pub length-frame_header : (n : ℕ) → length (frame_header n) ≡ 12
unfolding frame_header
length-frame_header n = refl

-- send_ on a buffer with a packet at its byte 12.
pub send_frame-frame :
    (send_all : SendAll) (buf packet rest : List ℕ)
    → 12 ≤ length buf
    → (send_frame send_all (length packet) (take 12 buf ++ (packet ++ rest))).0
      ≡ send_all (frame packet)
unfolding send_frame
send_frame-frame send_all buf packet rest room =
    let head : length (take 12 buf) ≡ 12 = length-take 12 buf room in
    let l : length packet + 12 ≤ length (take 12 buf ++ (packet ++ rest)) =
      omega (arith, length-append (take 12 buf) (packet ++ rest), length-append packet rest) in
    let d : drop 12 (take 12 buf ++ (packet ++ rest)) ≡ packet ++ rest =
      ap (λ n. drop n (take 12 buf ++ (packet ++ rest))) (sym head)
      ∙ drop-append (take 12 buf) (packet ++ rest) in
    let n : length packet + 12 ≡ length (frame packet) = omega (
      arith,
      length-append (frame_header (length packet)) packet,
      length-frame_header (length packet),
    ) in
    rw
      (
        le→ltb _ _ l,
        d,
        n,
        ← append_assoc (frame_header (length packet)) packet rest,
        take-append (frame packet) rest,
      )
      refl

length-take_pad : (n : ℕ) (xs : List ℕ) → length (take n xs) + (n - length xs) ≡ n
length-take_pad zero xs = omega arith
length-take_pad (suc n) [] = omega arith
length-take_pad (suc n) (x ∷ xs) = omega (arith, length-take_pad n xs)

pub length-resize : (n : ℕ) (xs : List ℕ) → length (resize n xs) ≡ n
length-resize n xs = omega (
  arith,
  length-append (take n xs) (replicate (n - length xs) 0),
  length-replicate {A = ℕ} (n - length xs) 0,
  length-take_pad n xs,
)

pub make_room-enough :
    (policy : BufferPolicy) (n : ℕ) (buf : List ℕ)
    → (policy ≡ BufferPolicy.auto_resize) ⊎ (n ≤ length buf)
    → (buf' : List ℕ) × (make_room policy n buf ≡ some buf') × (n ≤ length buf')
unfolding make_room
make_room-enough BufferPolicy.fixed n buf (inr h) = (buf, ground arith, h)
make_room-enough BufferPolicy.fixed n buf (inl h) = cc
make_room-enough BufferPolicy.auto_resize n buf h = elim (Bool-cases (ltb (length buf) n)) [
  | inl e ↦ (resize n buf, rw e refl, omega (arith, length-resize n buf))
  | inr e ↦ (buf, rw e refl, ltb→le _ _ e)
]

take-take-append :
    (k n : ℕ) (xs ys : List ℕ) → k ≤ n → k ≤ length xs → take k (take n xs ++ ys) ≡ take k xs
take-take-append zero n xs ys h l = refl
take-take-append (suc k) n [] ys h l = absurd (omega arith)
take-take-append (suc k) zero (x ∷ xs) ys h l = absurd (omega arith)
take-take-append (suc k) (suc n) (x ∷ xs) ys h l =
    ap (◌∷◌ x) (take-take-append k n xs ys (omega arith) (omega arith))

pub take-resize : (k n : ℕ) (xs : List ℕ) → k ≤ n → k ≤ length xs → take k (resize n xs) ≡ take k xs
take-resize k n xs h l = take-take-append k n xs (replicate (n - length xs) 0) h l

pub make_room-same :
    (policy : BufferPolicy) (n : ℕ) (buf : List ℕ)
    → n ≤ length buf
    → make_room policy n buf ≡ some buf
unfolding make_room
make_room-same BufferPolicy.fixed n buf h = rw (le→ltb _ _ h) refl
make_room-same BufferPolicy.auto_resize n buf h = rw (le→ltb _ _ h) refl

pub make_room-small :
    (policy : BufferPolicy) (n m : ℕ) (buf : List ℕ)
    → n < m
    → length buf < m
    → (make_room policy n buf ≡ none)
      ⊎ ((buf' : List ℕ) × (make_room policy n buf ≡ some buf') × (length buf' < m))
unfolding make_room
make_room-small BufferPolicy.fixed n m buf h l = elim (Bool-cases (ltb (length buf) n)) [
  | inl e ↦ inl (rw e refl)
  | inr e ↦ inr (buf, rw e refl, l)
]
make_room-small BufferPolicy.auto_resize n m buf h l = elim (Bool-cases (ltb (length buf) n)) [
  | inl e ↦ inr (resize n buf, rw e refl, omega (arith, length-resize n buf))
  | inr e ↦ inr (buf, rw e refl, l)
]

-- Building a packet of `size` bytes into a buffer with room for its frame, and sending it.
pub with_room-frame :
    (send_all : SendAll) (policy : BufferPolicy) (send_buf packet : List ℕ) (size : ℕ)
    (build : List ℕ → Result (ℕ × List ℕ))
    → length packet ≡ size
    → ((out : List ℕ) → size ≤ length out → build out ≡ ok (size, packet ++ drop size out))
    → (policy ≡ auto_resize) ⊎ (size + 12 ≤ length send_buf)
    → (with_room
        (make_room policy (size + 12) send_buf)
        send_buf
        λ buf. with_built (build (drop 12 buf)) buf (send_frame send_all size)).0
      ≡ send_all (frame packet)
with_room-frame send_all policy send_buf packet size build l builds room =
    let (buf, e, enough) = make_room-enough policy (size + 12) send_buf room in
    let next : List ℕ → Sent = send_frame send_all size in
    let built : build (drop 12 buf) ≡ ok (size, packet ++ drop size (drop 12 buf)) =
      builds (drop 12 buf) (omega (arith, length-drop 12 buf)) in
    ap (λ o. (with_room o send_buf λ b. with_built (build (drop 12 b)) b next).0) e
    ∙ ap (λ r. (with_built r buf next).0) built
    ∙ ap (λ (n : ℕ). (send_frame send_all n (take 12 buf ++ (packet ++ drop size (drop 12 buf)))).0)
        (sym l)
    ∙ send_frame-frame send_all buf packet (drop size (drop 12 buf)) (omega arith)
