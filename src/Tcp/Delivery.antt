-- ===== src/Tcp/Delivery.antt =====
-- The loop of recvSome, in both backends, over what it does with the result of recv.
use spw_rmap.Base.{
  ℕ, zero, suc, ◌≤◌, ◌<◌, ◌≡◌, ◌≢◌, refl, ap, ◌∙◌, sym, subst, ◌⊎◌, inl, inr, List, [], ◌∷◌, ◌++◌,
  Option, none, some, length, ◌==◌, if◌then◌else◌, Bool-cases, ==→eq, eq→==, arith,
}
use spw_rmap.Rmap.{Result, ok, err, fault, ErrorCode}
use spw_rmap.Tcp.System.{Called, value, failed, System}
use spw_rmap.Tcp.Steps.{M, transfer_error}
use spw_rmap.Tcp.Promises.{Receives}
use spw_rmap.Node.Link.{RecvSome}
use spw_rmap.Node.Receive.Takes.{EndsDry}

-- A backend's recvSome as the node calls it, with fuel for every interruption to come.
abbrev pub settled : {W : Type 0} → W → Option (Result (List ℕ) × W) → Result (List ℕ) × W
settled w none = (fault, w)
settled w (some x) = x

abbrev pub as_recv_some : {W : Type 0} → (W → ℕ) → (ℕ → ℕ → M W (List ℕ)) → RecvSome W
as_recv_some calm recv n w = settled w (recv (suc (calm w)) n w)

-- The end of a recvSome that was called with `n + 1` places in front of `bytes`.
abbrev Delivered : {W : Type 0} → (W → List ℕ) → ℕ → W → Option (Result (List ℕ) × W) → Type 0
Delivered {W} pending n w o =
    (w' : W) × (((pending w ≡ [])
        × (pending w' ≡ [])
        × ((o ≡ some (ok [], w')) ⊎ ((e : ErrorCode) × (o ≡ some (err e, w')))))
      ⊎ ((b : ℕ) × (bs : List ℕ) × (o ≡ some (ok (b ∷ bs), w'))
          × (length bs ≤ n)
          × (pending w ≡ b ∷ bs ++ pending w')))

-- What both loops do with the result of recv.
pub record Round {W : Type 0} (sys : System W)
    (after : Called (List ℕ) × W → M W (List ℕ) → Option (Result (List ℕ) × W)) : Type 0 where
  pub on_error :
      (e : ℕ) (w : W) (again : M W (List ℕ))
      → after (failed e, w) again
        ≡ (if e == sys.eintr then again w else some (err (transfer_error sys e), w))
  pub on_bytes :
      (b : ℕ) (bs : List ℕ) (w : W) (again : M W (List ℕ))
      → after (value (b ∷ bs), w) again ≡ some (ok (b ∷ bs), w)
  pub on_end :
      (w : W) (again : M W (List ℕ))
      → (after (value [], w) again ≡ some (ok [], w))
        ⊎ ((e : ErrorCode) × (after (value [], w) again ≡ some (err e, w)))

module _ {W : Type 0} (sys : System W) (fd : Option ℕ) (pending : W → List ℕ) (calm : W → ℕ)
    (c : Receives sys fd pending calm)
    (after : Called (List ℕ) × W → M W (List ℕ) → Option (Result (List ℕ) × W))
    (a : Round sys after) (loop : ℕ → ℕ → M W (List ℕ))
    (loop-suc : (k n : ℕ) (w : W) → loop (suc k) n w ≡ after (sys.recv fd n w) (loop k n)) where
  round :
      (k n : ℕ) (w : W) (x : Called (List ℕ))
      → (sys.recv fd (suc n) w).0 ≡ x
      → loop (suc k) (suc n) w ≡ after (x, (sys.recv fd (suc n) w).1) (loop k (suc n))
  round k n w x e =
      loop-suc k (suc n) w ∙ ap (λ y. after (y, (sys.recv fd (suc n) w).1) (loop k (suc n))) e

  -- A loop that begins with an interrupted call.
  interrupted :
      (k n e : ℕ) (w : W)
      → (sys.recv fd (suc n) w).0 ≡ failed e
      → e ≡ sys.eintr
      → pending (sys.recv fd (suc n) w).1 ≡ pending w
      → Delivered pending n (sys.recv fd (suc n) w).1 (loop k (suc n) (sys.recv fd (suc n) w).1)
      → Delivered pending n w (loop (suc k) (suc n) w)
  interrupted k n e w q same p d =
      let w1 : W = (sys.recv fd (suc n) w).1 in
      let step : loop (suc k) (suc n) w ≡ loop k (suc n) w1 =
        round k n w (failed e) q
        ∙ a.on_error e w1 (loop k (suc n))
        ∙ rw (eq→== e sys.eintr same) refl in
      subst (Delivered pending n w) (sym step) (moved d)
    where
      moved :
          Delivered pending n (sys.recv fd (suc n) w).1 (loop k (suc n) (sys.recv fd (suc n) w).1)
          → Delivered pending n w (loop k (suc n) (sys.recv fd (suc n) w).1)
      moved (w', inl (z, z', r)) = (w', inl (sym p ∙ z, z', r))
      moved (w', inr (b, bs, r, l, f)) = (w', inr (b, bs, r, l, sym p ∙ f))

  calmer :
      (n : ℕ) (w : W)
      → (sys.recv fd (suc n) w).0 ≡ failed sys.eintr
      → calm (sys.recv fd (suc n) w).1 < calm w
  calmer n w q = let (_, _, fewer) = c.recv_calm (suc n) w tt in fewer q

  loop-Delivered : (k n : ℕ) (w : W) → calm w < k → Delivered pending n w (loop k (suc n) w)
  loop-Delivered zero n w h = absurd (omega arith)
  loop-Delivered (suc k) n w h =
      let w1 : W = (sys.recv fd (suc n) w).1 in
      by_pending (pending w) refl (λ l. loop-Delivered k n w1 (omega arith))
    where
      Later : Type 0
      Later =
          calm (sys.recv fd (suc n) w).1 < calm w
          → Delivered pending n (sys.recv fd (suc n) w).1 (loop k (suc n) (sys.recv fd (suc n) w).1)

      by_error :
          (e : ℕ)
          → (sys.recv fd (suc n) w).0 ≡ failed e
          → pending w ≡ []
          → pending (sys.recv fd (suc n) w).1 ≡ []
          → Later
          → Delivered pending n w (loop (suc k) (suc n) w)
      by_error e q z z' later = elim (Bool-cases (e == sys.eintr)) [
        | inl t ↦
            let same = ==→eq e sys.eintr t in
            interrupted k n e w q same (z' ∙ sym z) (later (calmer n w (q ∙ ap failed same)))
        | inr t ↦ (
          (sys.recv fd (suc n) w).1,
          inl (
            z,
            z',
            inr (
              transfer_error sys e,
              round k n w (failed e) q ∙ a.on_error e _ (loop k (suc n)) ∙ rw t refl,
            ),
          ),
        )
      ]

      by_pending :
          (ps : List ℕ) → pending w ≡ ps → Later → Delivered pending n w (loop (suc k) (suc n) w)
      by_pending [] z later =
          let (how, z') = c.dry n w z in
          let w1 : W = (sys.recv fd (suc n) w).1 in
          elim how [
            | inl q ↦ (
              w1,
              inl (
                z,
                z',
                elim (a.on_end w1 (loop k (suc n))) [
                  | inl r ↦ inl (round k n w (value []) q ∙ r)
                  | inr (e, r) ↦ inr (e, round k n w (value []) q ∙ r)
                ],
              ),
            )
            | inr (e, q) ↦ by_error e q z z' later
          ]
      by_pending (p ∷ ps) z later =
          elim (c.gives n w (λ e. let f : p ∷ ps ≡ [] = sym z ∙ e in cc)) [
            | inl (q, same) ↦ interrupted k n sys.eintr w q refl same (later (calmer n w q))
            | inr (b, bs, q, l, f) ↦ (
              (sys.recv fd (suc n) w).1,
              inr (
                b,
                bs,
                round k n w (value (b ∷ bs)) q ∙ a.on_bytes b bs _ (loop k (suc n)),
                l,
                f,
              ),
            )
          ]

  -- A recvSome over the loop, called with a place at least.
  pub recv-EndsDry :
      (recv : ℕ → ℕ → M W (List ℕ))
      → ((k n : ℕ) (w : W) → recv k (suc n) w ≡ loop k (suc n) w)
      → EndsDry (as_recv_some calm recv) pending
  recv-EndsDry recv same = record {
    stream = record { gives = λ n w h. gives n w h (delivered n w) };
    dry = λ n w h. dry n w h (delivered n w);
  }
    where
      delivered : (n : ℕ) (w : W) → Delivered pending n w (recv (suc (calm w)) (suc n) w)
      delivered n w =
          subst (Delivered pending n w) (sym (same (suc (calm w)) n w))
            (loop-Delivered (suc (calm w)) n w (omega arith))

      some_recv : RecvSome W
      some_recv = as_recv_some calm recv

      gives :
          (n : ℕ) (w : W)
          → pending w ≢ []
          → Delivered pending n w (recv (suc (calm w)) (suc n) w)
          → (b : ℕ) × (bs : List ℕ) × ((some_recv (suc n) w).0 ≡ ok (b ∷ bs))
            × (length bs ≤ n)
            × (pending w ≡ b ∷ bs ++ pending (some_recv (suc n) w).1)
      gives n w h (w', inl (z, _, _)) = absurd (h z)
      gives n w h (w', inr (b, bs, r, l, f)) = (
        b,
        bs,
        ap (λ o. (settled w o).0) r,
        l,
        f ∙ ap (λ o. b ∷ bs ++ pending (settled w o).1) (sym r),
      )

      dry :
          (n : ℕ) (w : W)
          → pending w ≡ []
          → Delivered pending n w (recv (suc (calm w)) (suc n) w)
          → (((some_recv (suc n) w).0 ≡ ok [])
              ⊎ ((e : ErrorCode) × ((some_recv (suc n) w).0 ≡ err e)))
            × (pending (some_recv (suc n) w).1 ≡ [])
      dry n w h (w', inl (_, z, inl r)) =
          (inl (ap (λ o. (settled w o).0) r), ap (λ o. pending (settled w o).1) r ∙ z)
      dry n w h (w', inl (_, z, inr (e, r))) =
          (inr (e, ap (λ o. (settled w o).0) r), ap (λ o. pending (settled w o).1) r ∙ z)
      dry n w h (w', inr (b, bs, _, _, f)) =
          absurd (let e : b ∷ bs ++ pending w' ≡ [] = sym f ∙ h in cc)
