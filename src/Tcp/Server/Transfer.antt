-- ===== src/Tcp/Server/Transfer.antt =====
-- What TCPServer's sendAll puts on the connection.
use spw_rmap.Base.{
  ℕ, zero, suc, ◌+◌, ◌≤◌, ◌<◌, ◌≡◌, refl, ap, ◌∙◌, sym, subst, inl, inr, false, List, [], ◌∷◌, ◌++◌,
  append-nil, Option, length, length-append, drop, drop-append, ltb, ◌==◌, Bool-cases, le→ltb,
  ==→eq, arith,
}
use spw_rmap.Rmap.{Result, ok}
use spw_rmap.Tcp.System.{Called, value, failed, System}
use spw_rmap.Tcp.Steps.{transfer_error}
use spw_rmap.Tcp.Promises.{Sends}
use spw_rmap.Tcp.Client.Transfer.{Sent, stopped, Sent-append}
use spw_rmap.Tcp.Server.{after_send, send_all}

module _ {W : Type 0} (sys : System W) (rounds : ℕ) (sent : W → List ℕ) (calm : W → ℕ)
    (c : Sends sys sent calm) (fd : Option ℕ)
    (progress : (b : ℕ) (bs : List ℕ) (w : W) (n : ℕ)
      → (sys.send fd (b ∷ bs) w).0 ≡ value n
      → 0 < n) where
  module _ (k b : ℕ) (bs : List ℕ) (w : W)
      (later : (bytes : List ℕ) (w' : W)
        → length bytes + calm w' < length (b ∷ bs) + calm w
        → Sent sent (sent w') bytes (send_all sys rounds k fd bytes w')) where
    abbrev w1 : W
    w1 = (sys.send fd (b ∷ bs) w).1

    abbrev again : Called ℕ → Option (Result (Unit {0}) × W)
    again x = after_send sys rounds (b ∷ bs) (x, w1) (send_all sys rounds k fd)

    fewer : calm w1 ≤ calm w
    fewer = let (_, f, _) = c.send_calm fd (b ∷ bs) w tt in f

    failed-Sent :
        (e : ℕ)
        → (sys.send fd (b ∷ bs) w).0 ≡ failed e
        → sent w1 ≡ sent w
        → Sent sent (sent w) (b ∷ bs) (again (failed e))
    unfolding after_send
    failed-Sent e q same = elim (Bool-cases (e == sys.eintr)) [
      | inl t ↦
          let (_, _, f) = c.send_calm fd (b ∷ bs) w tt in
          let down : calm w1 < calm w = f (q ∙ ap failed (==→eq e sys.eintr t)) in
          rw t (
            subst (λ x. Sent sent x (b ∷ bs) (send_all sys rounds k fd (b ∷ bs) w1)) same
              (later (b ∷ bs) w1 (omega arith)))
      | inr t ↦ stopped sent (sent w) (b ∷ bs) w1 (transfer_error sys e) _ same (rw t refl)
    ]

    taken-Sent :
        (front back : List ℕ)
        → 0 < length front
        → b ∷ bs ≡ front ++ back
        → sent w1 ≡ sent w ++ front
        → Sent sent (sent w) (b ∷ bs) (again (value (length front)))
    unfolding after_send
    taken-Sent front back positive split grows =
        let size : length (b ∷ bs) ≡ length front + length back =
          ap length split ∙ length-append front back in
        let inside : ltb (length (b ∷ bs)) (length front) ≡ false = le→ltb _ _ (omega arith) in
        let rest : drop (length front) (b ∷ bs) ≡ back =
          ap (drop (length front)) split ∙ drop-append front back in
        let step : again (value (length front)) ≡ send_all sys rounds k fd back w1 =
          rw inside (ap (λ x. send_all sys rounds k fd x w1) rest) in
        let behind : Sent sent (sent w ++ front) back (send_all sys rounds k fd back w1) =
          subst (λ x. Sent sent x back (send_all sys rounds k fd back w1)) grows
            (later back w1 (omega (arith, fewer))) in
        subst (λ x. Sent sent (sent w) x (again (value (length front)))) (sym split)
          (subst (Sent sent (sent w) (front ++ back)) (sym step)
            (Sent-append sent (sent w) front back _ behind))

    round-Sent : Sent sent (sent w) (b ∷ bs) (again (sys.send fd (b ∷ bs) w).0)
    round-Sent = elim (c.takes fd (b ∷ bs) w) [
      | inl (e, q, same) ↦
          subst (λ x. Sent sent (sent w) (b ∷ bs) (again x)) (sym q) (failed-Sent e q same)
      | inr (front, back, q, split, grows) ↦
          subst (λ x. Sent sent (sent w) (b ∷ bs) (again x)) (sym q)
            (taken-Sent front back (progress b bs w (length front) q) split grows)
    ]

  send_all-Sent :
      (k : ℕ) (bytes : List ℕ) (w : W)
      → length bytes + calm w < k
      → Sent sent (sent w) bytes (send_all sys rounds k fd bytes w)
  unfolding send_all
  send_all-Sent zero bytes w h = absurd (omega arith)
  send_all-Sent (suc k) [] w h =
      (ok tt, w, [], [], refl, refl, sym (append-nil (sent w)), inl (refl, refl))
  send_all-Sent (suc k) (b ∷ bs) w h =
      round-Sent k b bs w (λ bytes w' m. send_all-Sent k bytes w' (omega arith))

-- TCPServer's sendAll ends, with fuel for its bytes and for the interruptions to come, if a send of
-- some bytes never takes none: what the connection took is a part off the front of the bytes, in
-- their order, and all of them if the result is a success; else the result is an error.
pub server_send_all-Sent :
    {W : Type 0} (sys : System W) (rounds : ℕ) (sent : W → List ℕ) (calm : W → ℕ) (k : ℕ)
    (fd : Option ℕ) (bytes : List ℕ) (w : W)
    → Sends sys sent calm
    → ((b : ℕ) (bs : List ℕ) (v : W) (n : ℕ) → (sys.send fd (b ∷ bs) v).0 ≡ value n → 0 < n)
    → length bytes + calm w < k
    → Sent sent (sent w) bytes (send_all sys rounds k fd bytes w)
server_send_all-Sent sys rounds sent calm k fd bytes w c progress h =
    send_all-Sent sys rounds sent calm c fd progress k bytes w h
