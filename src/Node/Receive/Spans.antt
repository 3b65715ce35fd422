-- ===== src/Node/Receive/Spans.antt =====
-- The steps of a receiver on a stream that has enough bytes, and the room in its buffer.
use spw_rmap.Base.{
  ℕ, zero, suc, ◌+◌, ◌-◌, ◌%◌, ◌^◌, ◌≤◌, ◌<◌, ◌≡◌, refl, ap, ◌∙◌, sym, ◌⊎◌, inl, inr, true, false,
  List, [], ◌++◌, length, take, drop, replicate, le→ltb, ltb→le, ltb→lt, false, ltb, Bool-cases,
  append-nil, length-append, length-take, length-drop, take-append, append_assoc, arith,
}
use spw_rmap.Rmap.{ok}
use spw_rmap.Node.Send.{auto_resize, resize}
use spw_rmap.Node.Send.Room.{length-resize, take-resize}
use spw_rmap.Node.Link.{RecvSome, Received, Receiver, done, write_at, lift, pure, ◌>>=◌}
use spw_rmap.Node.Receive.{recv_exact, recv_local, recv_span, reserve, grow}
use spw_rmap.Node.Receive.Exact.{IsStream, recv_exact-IsStream}

drop-replicate : (n : ℕ) → drop n (replicate {A = ℕ} n 0) ≡ []
drop-replicate zero = refl
drop-replicate (suc n) = drop-replicate n

write_at-whole : (xs : List ℕ) → write_at 0 xs (replicate (length xs) 0) ≡ xs
write_at-whole xs =
    let e : 0 + length xs ≡ length xs = omega arith in
    rw (e, drop-replicate (length xs)) (append-nil xs)

-- A write behind the first bytes lengthens the known front.
pub take-write_at :
    (off : ℕ) (xs buf : List ℕ)
    → off + length xs ≤ length buf
    → take (off + length xs) (write_at off xs buf) ≡ take off buf ++ xs
take-write_at off xs buf h =
    let rest : List ℕ = drop (off + length xs) buf in
    let front : length (take off buf ++ xs) ≡ off + length xs =
      omega (arith, length-append (take off buf) xs, length-take off buf (omega arith)) in
    ap (take (off + length xs)) (sym (append_assoc (take off buf) xs rest))
    ∙ ap (λ n. take n ((take off buf ++ xs) ++ rest)) (sym front)
    ∙ take-append (take off buf ++ xs) rest

pub length-write_at :
    (off : ℕ) (xs buf : List ℕ)
    → off + length xs ≤ length buf
    → length (write_at off xs buf) ≡ length buf
length-write_at off xs buf h = omega (
  arith,
  length-append (take off buf) (xs ++ drop (off + length xs) buf),
  length-append xs (drop (off + length xs) buf),
  length-take off buf (omega arith),
  length-drop (off + length xs) buf,
)

module _ {S : Type 0} (recv_some : RecvSome S) (pending : S → List ℕ)
    (i : IsStream recv_some pending) (r : Receiver S) (up : r.connected ≡ true) (xs rest : List ℕ)
    (e : pending r.stream ≡ xs ++ rest) where
  pub recv_local-IsStream :
      (n : ℕ)
      → length xs ≡ n
      → (s' : S) × (recv_local recv_some n r ≡ done (ok (n, xs)) (record r { stream = s' }))
        × (pending s' ≡ rest)
  unfolding recv_local
  recv_local-IsStream n l =
      let (s', q, p) = recv_exact-IsStream recv_some pending xs rest r.stream i e in
      (s', local n (recv_exact recv_some r.connected n r.stream) s' (rw (up, ← l) q) l, p)
    where
      local :
          (n : ℕ) (x : Received S) (s' : S)
          → x ≡ (ok (length xs), xs, s')
          → length xs ≡ n
          → ◌>>=◌ {B = ℕ × List ℕ}
              (lift x.0)
              (λ count. pure (count, write_at 0 x.1 (replicate n 0)))
              (record r { stream = x.2 })
            ≡ done (ok (n, xs)) (record r { stream = s' })
      local n x s' q l =
          let whole : write_at 0 xs (replicate n 0) ≡ xs =
            ap (λ m. write_at 0 xs (replicate m 0)) (sym l) ∙ write_at-whole xs in
          ap
            (λ (y : Received S).
              ◌>>=◌ {B = ℕ × List ℕ} (lift y.0)
                (λ count. pure (count, write_at 0 y.1 (replicate n 0))) (record r { stream = y.2 }))
            q
          ∙ ap (λ (y : ℕ × List ℕ). done (ok y) (record r { stream = s' })) (λ j. (l j, whole j))

  pub recv_span-IsStream :
      (off n : ℕ)
      → length xs ≡ n
      → off + n ≤ length r.recv_buf
      → (s' : S) × (recv_span recv_some off n r
          ≡ done (ok n) (record r { recv_buf = write_at off xs r.recv_buf; stream = s' }))
        × (pending s' ≡ rest)
  unfolding recv_span
  recv_span-IsStream off n l room =
      let (s', q, p) = recv_exact-IsStream recv_some pending xs rest r.stream i e in
      (
        s',
        rw (le→ltb _ _ room) (
            ap
              (λ (x : Received S).
                done x.0 (record r { recv_buf = write_at off x.1 r.recv_buf; stream = x.2 }))
              (span (recv_exact recv_some r.connected n r.stream) s' (rw (up, ← l) q) l)),
        p,
      )
    where
      span :
          (x : Received S) (s' : S)
          → x ≡ (ok (length xs), xs, s')
          → length xs ≡ n
          → x ≡ (ok n, xs, s')
      span x s' q l = q ∙ rw l refl

-- The room for the next bytes: the buffer keeps the bytes of the packet so far.
pub reserve-room :
    {S : Type 0} (r : Receiver S) (total n : ℕ)
    → total ≤ length r.recv_buf
    → total + n < 2 ^ 64
    → (r.buffer_policy ≡ auto_resize) ⊎ (total + n ≤ length r.recv_buf)
    → (buf : List ℕ) × (reserve total total n r ≡ done (ok total) (record r { recv_buf = buf }))
      × (total + n ≤ length buf)
      × (length r.recv_buf ≤ length buf)
      × (take total buf ≡ take total r.recv_buf)
unfolding reserve grow
reserve-room r total n inside small room = elim (Bool-cases (ltb (length r.recv_buf - total) n)) [
  | inl e ↦ elim room [
    | inl auto ↦ (
      resize (total + n) r.recv_buf,
      rw e (ap (λ p. grow p total n r) auto ∙ grow_lem),
      omega (arith, length-resize (total + n) r.recv_buf),
      omega (arith, ltb→lt _ _ e, length-resize (total + n) r.recv_buf),
      take-resize total (total + n) r.recv_buf (omega arith) inside,
    )
    | inr h ↦ absurd (omega (arith, ltb→lt _ _ e))
  ]
  | inr e ↦ (r.recv_buf, rw e refl, omega (arith, ltb→le _ _ e), omega arith, refl)
]
  where
    grow_lem :
        grow auto_resize total n r
        ≡ done (ok total) (record r { recv_buf = resize (total + n) r.recv_buf })
    grow_lem =
        let wrap : (total + n) % 2 ^ 64 ≡ total + n = omega arith in
        let fits : ltb (length (resize (total + n) r.recv_buf)) total ≡ false =
          le→ltb _ _ (omega (arith, length-resize (total + n) r.recv_buf)) in
        rw (wrap, fits) refl
