-- ===== src/Tcp/Client/Connect.antt =====
-- The descriptors behind TCPClient's connect.
use spw_rmap.Base.{
  ℕ, zero, suc, ◌≤◌, ◌<◌, ◌≡◌, ◌≢◌, All, ◌==◌, false, refl, ap, ◌∙◌, sym, subst, ◌⊎◌, inl, inr,
  List, [], ◌∷◌, Option, none, some, if◌then◌else◌, eq→==, arith,
}
use spw_rmap.Rmap.{Result, ok, err, Errc, ErrorCode}
use spw_rmap.Tcp.System.{
  ℤ, Called, value, failed, AddrInfo, addresses, gai_error, gai_system, System,
}
use spw_rmap.Tcp.Steps.{◌>>◌, retried, whatever, retry, close_retry}
use spw_rmap.Tcp.Options.{set_sockopts, connect_with_timeout}
use spw_rmap.Tcp.Client.{try_next, with_socket, with_addresses, connect_loop, connect}
use spw_rmap.Tcp.Client.Setup.{
  Descriptors, Kept, followed-Kept, set_sockopts-Kept, connect_with_timeout-Kept,
}

module _ {W : Type 0} (sys : System W) (opened : W → List ℕ) (calm : W → ℕ)
    (c : Descriptors sys opened calm) where
  -- A close that fails with an error other than EINTR is not called again.
  retry-failed :
      (rounds fd e : ℕ) (w : W)
      → (sys.close fd w).0 ≡ failed e
      → (e == sys.eintr) ≡ false
      → retry sys.eintr (suc rounds) (sys.close fd) w ≡ some (failed e, (sys.close fd w).1)
  unfolding retry
  retry-failed rounds fd e w q t =
      let w1 : W = (sys.close fd w).1 in
      let again = retry sys.eintr rounds (sys.close fd) in
      ap (λ x. retried sys.eintr (x, w1) again) q
      ∙ ap (λ s. if s then again w1 else some (failed e, w1)) t

  -- Behind an interruption the descriptor is closed already.
  retry-close :
      (rounds fd : ℕ) (w : W) (rest : List ℕ)
      → opened w ≡ fd ∷ rest
      → All (λ d. d ≢ fd) rest
      → calm w < rounds
      → (y : Called (Unit {0})) × (w' : W) × (retry sys.eintr rounds (sys.close fd) w
          ≡ some (y, w'))
        × (opened w' ≡ rest)
        × (calm w' ≤ calm w)
  unfolding retry
  retry-close zero fd w rest h n l = absurd (omega arith)
  retry-close (suc zero) fd w rest h n l =
      let (g, how) = c.close_closes fd w rest h in
      elim how [
        | inl (q, f) ↦ absurd (omega arith)
        | inr (f, inl q) ↦ (
          value tt,
          (sys.close fd w).1,
          ap (λ x. retried sys.eintr (x, (sys.close fd w).1) (retry sys.eintr 0 (sys.close fd))) q,
          g,
          f,
        )
        | inr (f, inr (e, q, t)) ↦ (failed e, (sys.close fd w).1, retry-failed 0 fd e w q t, g, f)
      ]
  retry-close (suc (suc rounds)) fd w rest h n l =
      let w1 : W = (sys.close fd w).1 in
      let again = retry sys.eintr (suc rounds) (sys.close fd) in
      let (g, how) = c.close_closes fd w rest h in
      elim how [
        | inl (q, f) ↦
            let (e, q', t, g', f') = c.close_closed fd w1 (subst (All λ d. d ≢ fd) (sym g) n) in
            (
              failed e,
              (sys.close fd w1).1,
              ap (λ x. retried sys.eintr (x, w1) again) q
                  ∙ ap (λ t. if t then again w1 else some (failed sys.eintr, w1))
                      (eq→== sys.eintr sys.eintr refl)
                  ∙ retry-failed rounds fd e w1 q' t,
              g' ∙ g,
              omega arith,
            )
        | inr (f, inl q) ↦ (value tt, w1, ap (λ x. retried sys.eintr (x, w1) again) q, g, f)
        | inr (f, inr (e, q, t)) ↦ (failed e, w1, retry-failed (suc rounds) fd e w q t, g, f)
      ]

  close_retry-closes :
      (rounds fd : ℕ) (w : W) (rest : List ℕ)
      → opened w ≡ fd ∷ rest
      → All (λ d. d ≢ fd) rest
      → calm w < rounds
      → (w' : W) × (close_retry sys rounds fd w ≡ some (ok tt, w'))
        × (opened w' ≡ rest)
        × (calm w' ≤ calm w)
  unfolding close_retry
  close_retry-closes rounds fd w rest h n l =
      let (y, w', e, g, f) = retry-close rounds fd w rest h n l in (w', ap whatever e, g, f)

  module _ (rounds : ℕ) (ds : List ℕ) where
    -- A connect that ended: one more descriptor is open, fd_, if it succeeded, and else none.
    abbrev pub Connects : Option (Result (Unit {0}) × Option ℕ × W) → Type 0
    Connects o =
        (x : Result (Unit {0})) × (fd : Option ℕ) × (w' : W) × (o ≡ some (x, fd, w'))
        × (((n : ℕ) × (x ≡ ok tt) × (fd ≡ some n) × (opened w' ≡ n ∷ ds))
            ⊎ ((e : ErrorCode) × (x ≡ err e) × (fd ≡ none) × (opened w' ≡ ds)))

    -- What the rounds behind one address do.
    abbrev Next : (Result (Unit {0}) → W → Option (Result (Unit {0}) × Option ℕ × W)) → Type 0
    Next next =
        (e : ErrorCode) (w : W) → opened w ≡ ds → calm w < rounds → Connects (next (err e) w)

    try_next-Connects :
        (fd : ℕ) (o : Option (Result (Unit {0}) × W))
        (next : Result (Unit {0}) → W → Option (Result (Unit {0}) × Option ℕ × W))
        → Kept sys opened calm c rounds (fd ∷ ds) o
        → All (λ d. d ≢ fd) ds
        → Next next
        → Connects (try_next sys rounds fd o next)
    unfolding try_next
    try_next-Connects fd o next (x, w, e, (h, l), inl (a, q)) n k = (
      ok tt,
      some fd,
      w,
      ap (λ p. try_next sys rounds fd p next) (e ∙ ap (λ y. some (y, w)) q),
      inl (fd, refl, refl, h),
    )
    try_next-Connects fd o next (x, w, e, (h, l), inr (m, q)) n k =
        let (w', g, h', f) = close_retry-closes rounds fd w ds h n l in
        subst Connects
          (sym (
            ap (λ p. try_next sys rounds fd p next) (e ∙ ap (λ y. some (y, w)) q)
            ∙ closed m w (close_retry sys rounds fd w) w' g))
          (k m w' h' (omega arith))
      where
        closed :
            (m : ErrorCode) (w : W) (p : Option (Result (Unit {0}) × W)) (w' : W)
            → p ≡ some (ok tt, w')
            → (elim p [ none ↦ none | some y ↦ next (err m) y.1 ]) ≡ next (err m) w'
        closed m w p w' g = rw g refl

    connect_loop-Connects :
        (timeout : ℤ) (ais : List ℕ) (e : ErrorCode) (w : W)
        → opened w ≡ ds
        → calm w < rounds
        → Connects (connect_loop sys rounds timeout ais (err e) w)
    unfolding connect_loop
    connect_loop-Connects timeout [] e w h l = (err e, none, w, refl, inr (e, refl, refl, h))
    connect_loop-Connects timeout (ai ∷ rest) e w h l =
        by_socket (c.socket_opens ai w) (λ m v h' l'. connect_loop-Connects timeout rest m v h' l')
      where
        w1 : W
        w1 = (sys.socket ai w).1

        set_up : ℕ → W → Option (Result (Unit {0}) × Option ℕ × W)
        set_up fd v =
            try_next sys rounds fd
              ((set_sockopts sys fd >> connect_with_timeout sys rounds fd ai timeout) v)
              (connect_loop sys rounds timeout rest)

        by_socket :
            ((((fd : ℕ) × ((sys.socket ai w).0 ≡ value fd)
                  × (opened w1 ≡ fd ∷ opened w)
                  × All (λ d. d ≢ fd) (opened w))
                ⊎ ((k : ℕ) × ((sys.socket ai w).0 ≡ failed k) × (opened w1 ≡ opened w)))
              × (calm w1 ≤ calm w))
            → Next (connect_loop sys rounds timeout rest)
            → Connects (
                with_socket sys rounds
                  (sys.socket ai w)
                  (connect_loop sys rounds timeout rest)
                  set_up)
        by_socket (inl (fd, q, g, n), f) next =
            subst
              (λ x.
                Connects
                  (with_socket sys rounds (x, w1) (connect_loop sys rounds timeout rest) set_up))
              (sym q)
              (try_next-Connects fd _ _
                (followed-Kept sys opened calm c rounds (fd ∷ ds) (set_sockopts sys fd w1) _
                  (set_sockopts-Kept sys opened calm c rounds (fd ∷ ds) fd w1
                    (g ∙ ap (λ d. fd ∷ d) h, omega arith))
                  (λ _ v r.
                    connect_with_timeout-Kept sys opened calm c rounds (fd ∷ ds) fd ai timeout v r))
                (subst (All λ d. d ≢ fd) h n) next)
        by_socket (inr (k, q, g), f) next =
            subst
              (λ x.
                Connects
                  (with_socket sys rounds (x, w1) (connect_loop sys rounds timeout rest) set_up))
              (sym q) (next (ErrorCode.system k) w1 (g ∙ h) (omega arith))

-- On a system that opens descriptors that are not open yet, and whose close releases the descriptor
-- even where it fails with EINTR: TCPClient's connect without a connection ends, with fuel for the
-- interruptions to come, and leaks no descriptor. If it succeeds, fd_ is the one descriptor that is
-- open besides those before; if it fails, fd_ is -1, the descriptors are those before, and the result
-- is an error.
pub connect-Connects :
    {W : Type 0} (sys : System W) (opened : W → List ℕ) (calm : W → ℕ) (rounds : ℕ) (timeout : ℤ)
    (w : W)
    → (c : Descriptors sys opened calm) → calm w < rounds
    → Connects sys opened calm c rounds (opened w) (connect sys rounds none timeout w)
unfolding connect
connect-Connects {W} sys opened calm rounds timeout w c l =
    let (h, f) = c.getaddrinfo_keeps w in by_result (sys.getaddrinfo w).0 h (omega arith)
  where
    w1 : W
    w1 = (sys.getaddrinfo w).1

    by_result :
        (r : AddrInfo)
        → opened w1 ≡ opened w
        → calm w1 < rounds
        → Connects sys opened calm c rounds (opened w) (
            with_addresses sys rounds
              (r, w1)
              λ ais.
                connect_loop sys rounds timeout ais (err (ErrorCode.errc Errc.invalid_argument)))
    by_result (addresses ais) h f =
        connect_loop-Connects sys opened calm c rounds (opened w) timeout ais _ w1 h f
    by_result (gai_error rc) h f = (_, none, w1, refl, inr (_, refl, refl, h))
    by_result (gai_system e) h f = (_, none, w1, refl, inr (_, refl, refl, h))
