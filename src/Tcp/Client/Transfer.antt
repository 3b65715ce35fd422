-- ===== src/Tcp/Client/Transfer.antt =====
-- What TCPClient's sendAll puts on the connection.
use spw_rmap.Base.{
  ℕ, zero, suc, ◌+◌, ◌≤◌, ◌<◌, ◌≡◌, refl, ap, ◌∙◌, sym, subst, ◌⊎◌, inl, inr, true, false, Bool,
  List, [], ◌∷◌, ◌++◌, append-nil, append_assoc, Option, some, length, length-append, drop,
  drop-append, ltb, ◌==◌, bit_and, Bool-cases, le→ltb, ==→eq, arith,
}
use spw_rmap.Rmap.{Result, ok, err, Errc, ErrorCode}
use spw_rmap.Tcp.System.{Called, value, failed, System}
use spw_rmap.Tcp.Steps.{M, followed, transfer_error, retry}
use spw_rmap.Tcp.Promises.{Sends, retry-Calm}
use spw_rmap.Tcp.Client.{after_zero, after_send, send_loop, send_all}

-- A call of sendAll that ended: it took a part off the front of its bytes, all of them if it
-- succeeded.
abbrev pub Sent :
    {W : Type 0} → (W → List ℕ) → List ℕ → List ℕ → Option (Result (Unit {0}) × W) → Type 0
Sent {W} sent before bytes o =
    (x : Result (Unit {0})) × (w' : W) × (front back : List ℕ) × (o ≡ some (x, w'))
    × (bytes ≡ front ++ back)
    × (sent w' ≡ before ++ front)
    × (((x ≡ ok tt) × (back ≡ [])) ⊎ ((e : ErrorCode) × (x ≡ err e)))

-- Nothing more is taken.
pub stopped :
    {W : Type 0} (sent : W → List ℕ) (before bytes : List ℕ) (w : W) (e : ErrorCode)
    (o : Option (Result (Unit {0}) × W))
    → sent w ≡ before
    → o ≡ some (err e, w)
    → Sent sent before bytes o
stopped sent before bytes w e o h q =
    (err e, w, [], bytes, q, refl, h ∙ sym (append-nil before), inr (e, refl))

-- A part that was taken, and what was taken behind it.
pub Sent-append :
    {W : Type 0} (sent : W → List ℕ) (before first rest : List ℕ)
    (o : Option (Result (Unit {0}) × W))
    → Sent sent (before ++ first) rest o
    → Sent sent before (first ++ rest) o
Sent-append sent before first rest o (x, w', front, back, e, b, s, r) = (
  x,
  w',
  first ++ front,
  back,
  e,
  ap (λ t. first ++ t) b ∙ sym (append_assoc first front back),
  s ∙ append_assoc before first front,
  r,
)

module _ {W : Type 0} (sys : System W) (rounds : ℕ) (sent : W → List ℕ) (calm : W → ℕ)
    (c : Sends sys sent calm) (fd : ℕ) where
  -- The poll behind a send of no bytes takes none.
  after_zero-cases :
      (w : W) (before : List ℕ)
      → sent w ≡ before
      → calm w < rounds
      → (w' : W) × (sent w' ≡ before)
        × (calm w' ≤ calm w)
        × ((after_zero sys rounds (retry sys.eintr rounds (sys.poll fd 10) w) ≡ some (ok tt, w'))
            ⊎ ((e : ErrorCode) × (after_zero sys rounds (retry sys.eintr rounds (sys.poll fd 10) w)
                  ≡ some (err e, w'))))
  unfolding after_zero
  after_zero-cases w before h l =
      let (y, w', e, kept, fewer) =
        retry-Calm sys.eintr calm (λ v. sent v ≡ before) (sys.poll fd 10) rounds w
          (c.poll_calm fd 10 before) h l in
      (w', kept, fewer, by_result y w' e)
    where
      by_result :
          (y : Called (ℕ × ℕ)) (w' : W)
          → retry sys.eintr rounds (sys.poll fd 10) w ≡ some (y, w')
          → (after_zero sys rounds (retry sys.eintr rounds (sys.poll fd 10) w) ≡ some (ok tt, w'))
            ⊎ ((e : ErrorCode) × (after_zero sys rounds (retry sys.eintr rounds (sys.poll fd 10) w)
                  ≡ some (err e, w')))
      by_result (failed k) w' e = inr (_, ap (after_zero sys rounds) e)
      by_result (value (count, revents)) w' e = elim (Bool-cases (count == 0)) [
        | inl p ↦ inr (ErrorCode.errc Errc.timed_out, ap (after_zero sys rounds) e ∙ rw p refl)
        | inr p ↦ elim (Bool-cases (bit_and revents sys.poll_failures == 0)) [
          | inr q ↦ inr (
            ErrorCode.errc Errc.connection_aborted,
            ap (after_zero sys rounds) e ∙ rw (p, q) refl,
          )
          | inl q ↦ elim (Bool-cases (bit_and revents sys.pollout == 0)) [
            | inl r ↦
                inr (ErrorCode.errc Errc.io_error, ap (after_zero sys rounds) e ∙ rw (p, q, r) refl)
            | inr r ↦ inl (ap (after_zero sys rounds) e ∙ rw (p, q, r) refl)
          ]
        ]
      ]

  -- One more round for the one send of no bytes that is tried again.
  abbrev pub spare : Bool → ℕ
  spare true = 0
  spare false = 1

  abbrev LoopSent : ℕ → Bool → List ℕ → W → Type 0
  LoopSent k z bytes w = Sent sent (sent w) bytes (send_loop sys rounds k fd z bytes w)

  -- The rounds behind the one at `w`, on the same bytes or on fewer.
  abbrev Later : ℕ → Bool → List ℕ → W → Type 0
  Later k z bytes w =
      (z' : Bool) (bytes' : List ℕ) (w' : W)
      → length bytes' + calm w' + spare z' < length bytes + calm w + spare z
      → calm w' ≤ calm w
      → LoopSent k z' bytes' w'

  module _ (k : ℕ) (z : Bool) (bytes : List ℕ) (w : W) (l : calm w < rounds)
      (later : Later k z bytes w) where
    abbrev w1 : W
    w1 = (sys.send (some fd) bytes w).1

    abbrev again : Called ℕ → Option (Result (Unit {0}) × W)
    again x = after_send sys rounds fd z bytes (x, w1) (send_loop sys rounds k fd)

    fewer : calm w1 ≤ calm w
    fewer = let (_, f, _) = c.send_calm (some fd) bytes w tt in f

    failed-Sent :
        (e : ℕ)
        → (sys.send (some fd) bytes w).0 ≡ failed e
        → sent w1 ≡ sent w
        → Sent sent (sent w) bytes (again (failed e))
    unfolding after_send
    failed-Sent e q same = elim (Bool-cases (e == sys.eintr)) [
      | inl t ↦
          let (_, _, f) = c.send_calm (some fd) bytes w tt in
          let down : calm w1 < calm w = f (q ∙ ap failed (==→eq e sys.eintr t)) in
          rw t (
            subst (λ b. Sent sent b bytes (send_loop sys rounds k fd z bytes w1)) same
              (later z bytes w1 (omega arith) fewer))
      | inr t ↦ stopped sent (sent w) bytes w1 (transfer_error sys e) _ same (rw t refl)
    ]

    zero-Sent : sent w1 ≡ sent w → (t : Bool) → z ≡ t → Sent sent (sent w) bytes (again (value 0))
    unfolding after_send
    zero-Sent same true q =
        stopped sent (sent w) bytes w1 (ErrorCode.errc Errc.io_error) _ same (rw q refl)
    zero-Sent same false q =
        let (w', kept, f, how) = after_zero-cases w1 (sent w) same (omega (arith, fewer)) in
        let one : spare z ≡ 1 = ap spare q in
        let next : Unit {0} → M W (Unit {0}) = λ _. send_loop sys rounds k fd true bytes in
        subst (Sent sent (sent w) bytes) (rw q refl) (elim how [
          | inl r ↦ subst (Sent sent (sent w) bytes) (sym (ap (λ o. followed o next) r)) (
              subst (λ b. Sent sent b bytes (send_loop sys rounds k fd true bytes w')) kept
                (later true bytes w' (omega (arith, fewer)) (omega (arith, fewer))))
          | inr (e, r) ↦ stopped sent (sent w) bytes w' e _ kept (ap (λ o. followed o next) r)
        ])

    taken-Sent :
        (f : ℕ) (fs back : List ℕ)
        → bytes ≡ f ∷ fs ++ back
        → sent w1 ≡ sent w ++ f ∷ fs
        → Sent sent (sent w) bytes (again (value (length (f ∷ fs))))
    unfolding after_send
    taken-Sent f fs back split grows =
        let size : length bytes ≡ length (f ∷ fs) + length back =
          ap length split ∙ length-append (f ∷ fs) back in
        let inside : ltb (length bytes) (length (f ∷ fs)) ≡ false = le→ltb _ _ (omega arith) in
        let rest : drop (length (f ∷ fs)) bytes ≡ back =
          ap (drop (length (f ∷ fs))) split ∙ drop-append (f ∷ fs) back in
        let step : again (value (length (f ∷ fs))) ≡ send_loop sys rounds k fd z back w1 =
          rw inside (ap (λ b. send_loop sys rounds k fd z b w1) rest) in
        let behind : Sent sent (sent w ++ f ∷ fs) back (send_loop sys rounds k fd z back w1) =
          subst (λ b. Sent sent b back (send_loop sys rounds k fd z back w1)) grows
            (later z back w1 (omega (arith, fewer)) fewer) in
        subst (λ b. Sent sent (sent w) b (again (value (length (f ∷ fs))))) (sym split)
          (subst (Sent sent (sent w) (f ∷ fs ++ back)) (sym step)
            (Sent-append sent (sent w) (f ∷ fs) back _ behind))

    round-Sent : Sent sent (sent w) bytes (again (sys.send (some fd) bytes w).0)
    round-Sent = elim (c.takes (some fd) bytes w) [
      | inl (e, q, same) ↦
          subst (λ x. Sent sent (sent w) bytes (again x)) (sym q) (failed-Sent e q same)
      | inr (front, back, q, split, grows) ↦
          subst (λ x. Sent sent (sent w) bytes (again x)) (sym q) (by_front front back split grows)
    ]
      where
        by_front :
            (front back : List ℕ)
            → bytes ≡ front ++ back
            → sent w1 ≡ sent w ++ front
            → Sent sent (sent w) bytes (again (value (length front)))
        by_front [] back split grows = zero-Sent (grows ∙ append-nil (sent w)) z refl
        by_front (f ∷ fs) back split grows = taken-Sent f fs back split grows

  send_loop-Sent :
      (k : ℕ) (z : Bool) (bytes : List ℕ) (w : W)
      → length bytes + calm w + spare z < k
      → calm w < rounds
      → Sent sent (sent w) bytes (send_loop sys rounds k fd z bytes w)
  unfolding send_loop
  send_loop-Sent zero z bytes w h l = absurd (omega arith)
  send_loop-Sent (suc k) z [] w h l =
      (ok tt, w, [], [], refl, refl, sym (append-nil (sent w)), inl (refl, refl))
  send_loop-Sent (suc k) z (b ∷ bs) w h l =
      round-Sent k z (b ∷ bs) w l
        (λ z' bytes' w' m n. send_loop-Sent k z' bytes' w' (omega arith) (omega arith))

-- TCPClient's sendAll on a connection ends, with fuel for its bytes, for the interruptions to come
-- and for one send of no bytes: what the connection took is a part off the front of the bytes, in
-- their order, and all of them if the result is a success; else the result is an error.
pub client_send_all-Sent :
    {W : Type 0} (sys : System W) (rounds : ℕ) (sent : W → List ℕ) (calm : W → ℕ) (k fd : ℕ)
    (bytes : List ℕ) (w : W)
    → Sends sys sent calm
    → calm w < rounds
    → length bytes + calm w + 1 < k
    → Sent sent (sent w) bytes (send_all sys rounds k (some fd) bytes w)
unfolding send_all
client_send_all-Sent sys rounds sent calm k fd bytes w c l h =
    send_loop-Sent sys rounds sent calm c fd k false bytes w h l
