-- ===== src/Tcp/Client/Setup.antt =====
-- The calls that set a socket up leave the open descriptors alone.
use spw_rmap.Base.{
  ℕ, ◌≤◌, ◌<◌, ◌≡◌, ◌≢◌, All, refl, ap, ◌∙◌, sym, subst, ◌⊎◌, inl, inr, true, false, Bool, List,
  ◌∷◌, Option, some, ◌==◌, if◌then◌else◌, bit_and, bit_or, arith,
}
use spw_rmap.Rmap.{Result, ok, err, ErrorCode}
use spw_rmap.Tcp.System.{ℤ, pos, negsuc, Called, value, failed, SysCall, SockOpt, System}
use spw_rmap.Tcp.Steps.{
  M, followed, pure, fail, returned, check, ignore, when, with_result, at_end, retry,
}
use spw_rmap.Tcp.Promises.{Calm, retry-Calm}
use spw_rmap.Tcp.Options.{
  set_sockopts, poll_timeout, socket_error, after_poll, after_connect, connect_with_timeout,
}

-- What the calls do to the open descriptors, on Linux: `socket` opens one that is not open, and
-- `close` releases the one that it is given, also where it fails, by EINTR or another error. For a
-- descriptor that is not open it fails with EBADF.
pub record Descriptors {W : Type 0} (sys : System W) (opened : W → List ℕ) (calm : W → ℕ)
    : Type 0 where
  pub socket_opens :
      (ai : ℕ) (w : W)
      → (((fd : ℕ) × ((sys.socket ai w).0 ≡ value fd)
            × (opened (sys.socket ai w).1 ≡ fd ∷ opened w)
            × All (λ d. d ≢ fd) (opened w))
          ⊎ ((e : ℕ) × ((sys.socket ai w).0 ≡ failed e) × (opened (sys.socket ai w).1 ≡ opened w)))
        × (calm (sys.socket ai w).1 ≤ calm w)
  pub close_closes :
      (fd : ℕ) (w : W) (rest : List ℕ)
      → opened w ≡ fd ∷ rest
      → (opened (sys.close fd w).1 ≡ rest)
        × ((((sys.close fd w).0 ≡ failed sys.eintr) × (calm (sys.close fd w).1 < calm w))
            ⊎ ((calm (sys.close fd w).1 ≤ calm w)
                × (((sys.close fd w).0 ≡ value tt)
                    ⊎ ((e : ℕ) × ((sys.close fd w).0 ≡ failed e) × ((e == sys.eintr) ≡ false)))))
  pub close_closed :
      (fd : ℕ) (w : W)
      → All (λ d. d ≢ fd) (opened w)
      → (e : ℕ) × ((sys.close fd w).0 ≡ failed e)
        × ((e == sys.eintr) ≡ false)
        × (opened (sys.close fd w).1 ≡ opened w)
        × (calm (sys.close fd w).1 ≤ calm w)
  pub getaddrinfo_keeps :
      (w : W) → (opened (sys.getaddrinfo w).1 ≡ opened w) × (calm (sys.getaddrinfo w).1 ≤ calm w)
  pub setsockopt_keeps :
      (fd : Option ℕ) (o : SockOpt) (ds : List ℕ)
      → Calm sys.eintr calm (λ w. opened w ≡ ds) (sys.setsockopt fd o)
  pub get_fd_keeps :
      (fd : ℕ) (ds : List ℕ) → Calm sys.eintr calm (λ w. opened w ≡ ds) (sys.get_fd_flags fd)
  pub set_fd_keeps :
      (fd flags : ℕ) (ds : List ℕ)
      → Calm sys.eintr calm (λ w. opened w ≡ ds) (sys.set_fd_flags fd flags)
  pub get_file_keeps :
      (fd : ℕ) (ds : List ℕ) → Calm sys.eintr calm (λ w. opened w ≡ ds) (sys.get_file_flags fd)
  pub set_file_keeps :
      (fd flags : ℕ) (ds : List ℕ)
      → Calm sys.eintr calm (λ w. opened w ≡ ds) (sys.set_file_flags fd flags)
  pub connect_keeps :
      (fd addr : ℕ) (ds : List ℕ) → Calm sys.eintr calm (λ w. opened w ≡ ds) (sys.connect fd addr)
  pub poll_keeps :
      (fd ms : ℕ) (ds : List ℕ) → Calm sys.eintr calm (λ w. opened w ≡ ds) (sys.poll fd ms)
  pub error_keeps :
      (fd : ℕ) (ds : List ℕ) → Calm sys.eintr calm (λ w. opened w ≡ ds) (sys.getsockopt_error fd)

module _ {W : Type 0} (sys : System W) (opened : W → List ℕ) (calm : W → ℕ)
    (c : Descriptors sys opened calm) (rounds : ℕ) (ds : List ℕ) where
  -- The system with the descriptors `ds` open, and calm enough for the loops.
  abbrev pub Ready : W → Type 0
  Ready w = (opened w ≡ ds) × (calm w < rounds)

  -- A call that ended, with a value or an error, and left the descriptors alone.
  abbrev pub Kept : {A : Type 0} → Option (Result A × W) → Type 0
  Kept {A} o =
      (x : Result A) × (w' : W) × (o ≡ some (x, w'))
      × Ready w'
      × (((a : A) × (x ≡ ok a)) ⊎ ((e : ErrorCode) × (x ≡ err e)))

  ok-Kept : {A : Type 0} (a : A) (w : W) → Ready w → Kept (some (ok a, w))
  ok-Kept a w h = (ok a, w, refl, h, inl (a, refl))

  err-Kept : {A : Type 0} (e : ErrorCode) (w : W) → Ready w → Kept {A = A} (some (err e, w))
  err-Kept e w h = (err e, w, refl, h, inr (e, refl))

  pub followed-Kept :
      {A B : Type 0} (o : Option (Result A × W)) (f : A → M W B)
      → Kept o
      → ((a : A) (w : W) → Ready w → Kept (f a w))
      → Kept (followed o f)
  followed-Kept {A} {B} o f (x, w, e, h, inl (a, q)) g =
      subst (λ (p : Option (Result A × W)). Kept (followed p f)) (sym (e ∙ ap (λ y. some (y, w)) q))
        (g a w h)
  followed-Kept {A} {B} o f (x, w, e, h, inr (k, q)) g =
      subst (λ (p : Option (Result A × W)). Kept (followed p f)) (sym (e ∙ ap (λ y. some (y, w)) q))
        (err-Kept k w h)

  returned-Kept : {A : Type 0} (y : Called A) (w : W) → Ready w → Kept (returned (y, w))
  returned-Kept (value a) w h = ok-Kept a w h
  returned-Kept (failed e) w h = err-Kept _ w h

  check-Kept :
      {A : Type 0} (call : SysCall W A) (w : W)
      → Calm sys.eintr calm (λ v. opened v ≡ ds) call
      → Ready w
      → Kept (check call w)
  check-Kept call w k (h, l) =
      let (h', f, _) = k w h in returned-Kept (call w).0 (call w).1 (h', omega arith)

  ignore-Kept :
      {A : Type 0} (call : SysCall W A) (w : W)
      → Calm sys.eintr calm (λ v. opened v ≡ ds) call
      → Ready w
      → Kept (ignore call w)
  ignore-Kept call w k (h, l) = let (h', f, _) = k w h in ok-Kept tt (call w).1 (h', omega arith)

  when-Kept : (b : Bool) (m : M W (Unit {0})) (w : W) → Ready w → Kept (m w) → Kept (when b m w)
  when-Kept true m w h k = k
  when-Kept false m w h k = ok-Kept tt w h

  pub set_sockopts-Kept : (fd : ℕ) (w : W) → Ready w → Kept (set_sockopts sys fd w)
  unfolding set_sockopts
  set_sockopts-Kept fd w h =
      followed-Kept (check (sys.setsockopt (some fd) SockOpt.tcp_nodelay) w) _
        (check-Kept _ w (c.setsockopt_keeps (some fd) SockOpt.tcp_nodelay ds) h)
        (λ _ w1 h1.
          followed-Kept (check (sys.get_fd_flags fd) w1) _
            (check-Kept _ w1 (c.get_fd_keeps fd ds) h1)
            (λ flags w2 h2.
              check-Kept _ w2 (c.set_fd_keeps fd (bit_or flags sys.fd_cloexec) ds) h2))

  -- The loops on EINTR.
  retry-Ready :
      {A : Type 0} (call : SysCall W A) (w : W)
      → Calm sys.eintr calm (λ v. opened v ≡ ds) call
      → Ready w
      → (y : Called A) × (w' : W) × (retry sys.eintr rounds call w ≡ some (y, w')) × Ready w'
  retry-Ready call w k (h, l) =
      let (y, w', e, h', f) = retry-Calm sys.eintr calm (λ v. opened v ≡ ds) call rounds w k h l in
      (y, w', e, (h', omega arith))

  socket_error-Kept : (fd : ℕ) (w : W) → Ready w → Kept (socket_error sys fd w)
  unfolding socket_error
  socket_error-Kept fd w h =
      followed-Kept (check (sys.getsockopt_error fd) w) _ (check-Kept _ w (c.error_keeps fd ds) h)
        (λ soerr w1 h1. by_error soerr w1 h1 (soerr == 0))
    where
      by_error :
          (soerr : ℕ) (w1 : W)
          → Ready w1
          → (t : Bool) → Kept ((if t then pure tt else fail (ErrorCode.system soerr)) w1)
      by_error soerr w1 h1 true = ok-Kept tt w1 h1
      by_error soerr w1 h1 false = err-Kept _ w1 h1

  after_poll-Kept :
      (fd : ℕ) (y : Called (ℕ × ℕ)) (w : W) → Ready w → Kept (after_poll sys fd (some (y, w)))
  unfolding after_poll
  after_poll-Kept fd (failed e) w h = err-Kept _ w h
  after_poll-Kept fd (value (count, revents)) w h = by_count (count == 0)
    where
      by_count :
          (t : Bool)
          → Kept
              (if t then some (err (ErrorCode.system sys.etimedout), w) else socket_error sys fd w)
      by_count true = err-Kept _ w h
      by_count false = socket_error-Kept fd w h

  after_connect-Kept :
      (fd ms : ℕ) (y : Called (Unit {0})) (w : W)
      → Ready w
      → Kept (after_connect sys rounds fd ms (some (y, w)))
  unfolding after_connect
  after_connect-Kept fd ms (value _) w h = ok-Kept tt w h
  after_connect-Kept fd ms (failed e) w h = by_errno (e == sys.einprogress)
    where
      by_errno :
          (t : Bool)
          → Kept (
              if t
              then after_poll sys fd (retry sys.eintr rounds (sys.poll fd ms) w)
              else some (err (ErrorCode.system e), w))
      by_errno true =
          let (y, w', q, h') = retry-Ready (sys.poll fd ms) w (c.poll_keeps fd ms ds) h in
          subst (λ o. Kept (after_poll sys fd o)) (sym q) (after_poll-Kept fd y w' h')
      by_errno false = err-Kept _ w h

  at_end-Kept :
      {A : Type 0} (o : Option (Result A × W)) (m : M W (Unit {0}))
      → Kept o
      → ((w : W) → Ready w → Kept (m w))
      → Kept (at_end o m)
  at_end-Kept {A} o m (x, w, e, h, how) k =
      let (y, w', q, h', _) = k w h in
      (x, w', ap (λ p. at_end p m) e ∙ ap (with_result x) q, h', how)

  pub connect_with_timeout-Kept :
      (fd addr : ℕ) (t : ℤ) (w : W) → Ready w → Kept (connect_with_timeout sys rounds fd addr t w)
  unfolding connect_with_timeout
  connect_with_timeout-Kept fd addr (negsuc n) w h = err-Kept _ w h
  connect_with_timeout-Kept fd addr (pos us) w h =
      followed-Kept (check (sys.get_file_flags fd) w) _ (check-Kept _ w (c.get_file_keeps fd ds) h)
        (λ flags w1 h1.
          followed-Kept
            (when (bit_and flags sys.o_nonblock == 0)
              (check (sys.set_file_flags fd (bit_or flags sys.o_nonblock))) w1)
            _
            (when-Kept (bit_and flags sys.o_nonblock == 0) _ w1 h1
              (check-Kept _ w1 (c.set_file_keeps fd (bit_or flags sys.o_nonblock) ds) h1))
            (λ _ w2 h2.
              let (y, w3, q, h3) =
                retry-Ready (sys.connect fd addr) w2 (c.connect_keeps fd addr ds) h2 in
              at_end-Kept _ _
                (subst (λ o. Kept (after_connect sys rounds fd (poll_timeout us) o)) (sym q)
                  (after_connect-Kept fd (poll_timeout us) y w3 h3))
                (λ w4 h4.
                  when-Kept (bit_and flags sys.o_nonblock == 0) _ w4 h4
                    (ignore-Kept _ w4 (c.set_file_keeps fd flags ds) h4))))
