-- ===== src/Tcp/Promises.antt =====
-- What src/tcp_client.cc and src/tcp_server.cc rely on in the system's calls. `calm` counts the
-- interruptions by signals that are still to come: a call that fails with EINTR takes one.
use spw_rmap.Base.{
  ℕ, zero, suc, ◌≤◌, ◌<◌, ◌≡◌, ◌≢◌, refl, ap, ◌∙◌, ◌⊎◌, inl, inr, List, [], ◌∷◌, ◌++◌, Option, some,
  length, ◌==◌, if◌then◌else◌, Bool-cases, ==→eq, arith,
}
use spw_rmap.Tcp.System.{Called, value, failed, SysCall, System}
use spw_rmap.Tcp.Steps.{retried, retry}

-- A call that keeps `P`, and is interrupted only so often.
abbrev pub Calm : {W A : Type 0} → ℕ → (W → ℕ) → (W → Type 0) → SysCall W A → Type 0
Calm {W} eintr calm P call =
    (w : W)
    → P w
    → P (call w).1
      × (calm (call w).1 ≤ calm w)
      × (((call w).0 ≡ failed eintr) → calm (call w).1 < calm w)

-- `send` takes bytes off the front of its span; `sent` are the bytes that were taken so far.
pub record Sends {W : Type 0} (sys : System W) (sent : W → List ℕ) (calm : W → ℕ) : Type 0 where
  pub takes :
      (fd : Option ℕ) (bytes : List ℕ) (w : W)
      → ((e : ℕ) × ((sys.send fd bytes w).0 ≡ failed e) × (sent (sys.send fd bytes w).1 ≡ sent w))
        ⊎ ((front back : List ℕ) × ((sys.send fd bytes w).0 ≡ value (length front))
            × (bytes ≡ front ++ back)
            × (sent (sys.send fd bytes w).1 ≡ sent w ++ front))
  pub send_calm :
      (fd : Option ℕ) (bytes : List ℕ) → Calm sys.eintr calm (λ w. Unit {0}) (sys.send fd bytes)
  pub poll_calm :
      (fd ms : ℕ) (bytes : List ℕ) → Calm sys.eintr calm (λ w. sent w ≡ bytes) (sys.poll fd ms)

-- `recv` gives the next bytes of a stream: one at least while there are some, and none or an error
-- behind the last one.
pub record Receives {W : Type 0} (sys : System W) (fd : Option ℕ) (pending : W → List ℕ)
    (calm : W → ℕ) : Type 0 where
  pub gives :
      (n : ℕ) (w : W)
      → pending w ≢ []
      → (((sys.recv fd (suc n) w).0 ≡ failed sys.eintr)
          × (pending (sys.recv fd (suc n) w).1 ≡ pending w))
        ⊎ ((b : ℕ) × (bs : List ℕ) × ((sys.recv fd (suc n) w).0 ≡ value (b ∷ bs))
            × (length bs ≤ n)
            × (pending w ≡ b ∷ bs ++ pending (sys.recv fd (suc n) w).1))
  pub dry :
      (n : ℕ) (w : W)
      → pending w ≡ []
      → (((sys.recv fd (suc n) w).0 ≡ value [])
          ⊎ ((e : ℕ) × ((sys.recv fd (suc n) w).0 ≡ failed e)))
        × (pending (sys.recv fd (suc n) w).1 ≡ [])
  pub recv_calm : (n : ℕ) → Calm sys.eintr calm (λ w. Unit {0}) (sys.recv fd n)

-- The loops on EINTR end, and keep what the call keeps.
pub retry-Calm :
    {W A : Type 0} (eintr : ℕ) (calm : W → ℕ) (P : W → Type 0) (call : SysCall W A) (rounds : ℕ)
    (w : W)
    → Calm eintr calm P call
    → P w
    → calm w < rounds
    → (y : Called A) × (w' : W) × (retry eintr rounds call w ≡ some (y, w'))
      × P w'
      × (calm w' ≤ calm w)
unfolding retry
retry-Calm eintr calm P call zero w c p h = absurd (omega arith)
retry-Calm {W} {A} eintr calm P call (suc rounds) w c p h =
    let (p', fewer, fewer') = c w p in
    by_result (call w).0 refl p' fewer fewer'
      (λ l. retry-Calm eintr calm P call rounds (call w).1 c p' (omega arith))
  where
    Ends : Option (Called A × W) → Type 0
    Ends o = (y : Called A) × (w' : W) × (o ≡ some (y, w')) × P w' × (calm w' ≤ calm w)

    by_result :
        (x : Called A)
        → (call w).0 ≡ x
        → P (call w).1
        → calm (call w).1 ≤ calm w
        → (((call w).0 ≡ failed eintr) → calm (call w).1 < calm w)
        → (calm (call w).1 < calm w
            → (y : Called A) × (w' : W) × (retry eintr rounds call (call w).1 ≡ some (y, w'))
              × P w'
              × (calm w' ≤ calm (call w).1))
        → Ends (retried eintr (call w) (retry eintr rounds call))
    by_result (value a) e p' f f' again = (
      value a,
      (call w).1,
      ap (λ c. retried eintr (c, (call w).1) (retry eintr rounds call)) e,
      p',
      f,
    )
    by_result (failed k) e p' f f' again =
        let w1 : W = (call w).1 in
        let next : W → Option (Called A × W) = retry eintr rounds call in
        let step : retried eintr (call w) next
            ≡ (if k == eintr then next w1 else some (failed k, w1)) =
          ap (λ c. retried eintr (c, w1) next) e in
        elim (Bool-cases (k == eintr)) [
          | inl q ↦
              let (y, w', g, p'', l) = again (f' (e ∙ ap failed (==→eq k eintr q))) in
              (y, w', step ∙ rw q g, p'', omega arith)
          | inr q ↦ (failed k, w1, step ∙ rw q refl, p', f)
        ]
