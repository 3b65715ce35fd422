-- ===== src/Tcp/Sample.antt =====
-- A small system: it interrupts some calls, gives and takes a byte at a time, and refuses the first
-- address.
use spw_rmap.Base.{
  ℕ, zero, suc, ◌+◌, ◌≤◌, ◌<◌, ◌≡◌, ◌≢◌, All, Bool, true, Bool-cases, ==→eq, eq→==, if◌then◌else◌,
  refl, sym, ◌∙◌, ◌⊎◌, inl, inr, false, List, [], ◌∷◌, ◌++◌, append-nil, some, length, ◌==◌, arith,
}
use spw_rmap.Tcp.System.{Called, value, failed, addresses, System}
use spw_rmap.Tcp.Promises.{Sends, Receives}
use spw_rmap.Tcp.Client.Setup.{Descriptors}

-- The interruptions to come, the bytes to come, the bytes taken, and the open descriptors.
pub record World : Type 0 where
  pub calm : ℕ
  pub pending : List ℕ
  pub sent : List ℕ
  pub opened : List ℕ

abbrev pub interrupted : {A : Type 0} → ℕ → World → Called A × World
interrupted k w = (failed 4, record w { calm = k })

abbrev pub close_at : ℕ → ℕ → List ℕ → World → Called (Unit {0}) × World
close_at fd k [] w = (failed 9, w)
close_at fd zero (o ∷ os) w =
    if o == fd then (value tt, record w { opened = os }) else (failed 9, w)
close_at fd (suc k) (o ∷ os) w =
    if o == fd then (failed 4, record w { calm = k; opened = os }) else (failed 9, w)

-- A descriptor that is not open.
abbrev pub fresh_fd : List ℕ → ℕ
fresh_fd [] = 3
fresh_fd (o ∷ os) = suc (o + fresh_fd os)

abbrev pub recv_at : ℕ → List ℕ → World → Called (List ℕ) × World
recv_at (suc k) ps w = interrupted k w
recv_at zero [] w = (value [], w)
recv_at zero (p ∷ ps) w = (value (p ∷ []), record w { pending = ps })

abbrev pub send_at : ℕ → List ℕ → World → Called ℕ × World
send_at (suc k) bytes w = interrupted k w
send_at zero [] w = (value 0, w)
send_at zero (b ∷ bs) w = (value 1, record w { sent = w.sent ++ b ∷ [] })

abbrev pub socket_at : ℕ → World → Called ℕ × World
socket_at zero w = (failed 97, w)
socket_at (suc ai) w =
    (value (fresh_fd w.opened), record w { opened = (fresh_fd w.opened) ∷ w.opened })

abbrev pub system : System World
system = record {
  eintr = 4;
  eagain = 11;
  ewouldblock = 11;
  einprogress = 115;
  etimedout = 110;
  eai_system = 11;
  o_nonblock = 2048;
  fd_cloexec = 1;
  pollout = 4;
  poll_failures = 56;
  close = λ fd w. close_at fd w.calm w.opened w;
  get_file_flags = λ fd w. (value 2, w);
  set_file_flags = λ fd flags w. (value tt, w);
  get_fd_flags = λ fd w. (value 0, w);
  set_fd_flags = λ fd flags w. (value tt, w);
  getaddrinfo = λ w. (addresses (0 ∷ 1 ∷ []), w);
  socket = socket_at;
  connect = λ fd addr w. (failed 115, w);
  bind = λ fd addr w. (value tt, w);
  listen = λ fd w. (value tt, w);
  accept =
      λ fd w. (value (fresh_fd w.opened), record w { opened = (fresh_fd w.opened) ∷ w.opened });
  poll = λ fd ms w. (value (1, 4), w);
  getsockopt_error = λ fd w. (value 0, w);
  setsockopt = λ fd o w. (value tt, w);
  send = λ fd bytes w. send_at w.calm bytes w;
  recv = λ fd n w. recv_at w.calm w.pending w;
  shutdown = λ fd w. (value tt, w);
}

pub system-Receives : Receives system (some 3) (λ w. w.pending) (λ w. w.calm)
system-Receives = record {
  gives = λ n w h. gives n w.calm w.pending w refl refl h;
  dry = λ n w h. dry w.calm w.pending w refl refl h;
  recv_calm = λ n w _. recv_calm w.calm w.pending w refl;
}
  where
    gives :
        (n k : ℕ) (ps : List ℕ) (w : World)
        → w.calm ≡ k
        → w.pending ≡ ps
        → w.pending ≢ []
        → (((recv_at k ps w).0 ≡ failed 4) × ((recv_at k ps w).1.pending ≡ w.pending))
          ⊎ ((b : ℕ) × (bs : List ℕ) × ((recv_at k ps w).0 ≡ value (b ∷ bs))
              × (length bs ≤ n)
              × (w.pending ≡ b ∷ bs ++ (recv_at k ps w).1.pending))
    gives n (suc k) ps w c e h = inl (refl, refl)
    gives n zero [] w c e h = absurd (h e)
    gives n zero (p ∷ ps) w c e h = inr (p, [], refl, omega arith, e)

    dry :
        (k : ℕ) (ps : List ℕ) (w : World)
        → w.calm ≡ k
        → w.pending ≡ ps
        → w.pending ≡ []
        → (((recv_at k ps w).0 ≡ value []) ⊎ ((e : ℕ) × ((recv_at k ps w).0 ≡ failed e)))
          × ((recv_at k ps w).1.pending ≡ [])
    dry (suc k) ps w c e h = (inr (4, refl), h)
    dry zero [] w c e h = (inl refl, h)
    dry zero (p ∷ ps) w c e h = let q : p ∷ ps ≡ [] = sym e ∙ h in absurd (ground arith)

    recv_calm :
        (k : ℕ) (ps : List ℕ) (w : World)
        → w.calm ≡ k
        → Unit {0}
          × ((recv_at k ps w).1.calm ≤ w.calm)
          × (((recv_at k ps w).0 ≡ failed 4) → (recv_at k ps w).1.calm < w.calm)
    recv_calm (suc k) ps w c = (tt, omega arith, λ e. omega arith)
    recv_calm zero [] w c = (tt, omega arith, λ e. cc)
    recv_calm zero (p ∷ ps) w c = (tt, omega arith, λ e. cc)

pub system-Sends : Sends system (λ w. w.sent) (λ w. w.calm)
system-Sends = record {
  takes = λ fd bytes w. takes w.calm bytes w;
  send_calm = λ fd bytes w _. send_calm w.calm bytes w refl;
  poll_calm = λ fd ms bytes w h. (h, omega arith, λ e. cc);
}
  where
    takes :
        (k : ℕ) (bytes : List ℕ) (w : World)
        → ((e : ℕ) × ((send_at k bytes w).0 ≡ failed e) × ((send_at k bytes w).1.sent ≡ w.sent))
          ⊎ ((front back : List ℕ) × ((send_at k bytes w).0 ≡ value (length front))
              × (bytes ≡ front ++ back)
              × ((send_at k bytes w).1.sent ≡ w.sent ++ front))
    takes (suc k) bytes w = inl (4, refl, refl)
    takes zero [] w = inr ([], [], refl, refl, sym (append-nil w.sent))
    takes zero (b ∷ bs) w = inr (b ∷ [], bs, refl, refl, refl)

    send_calm :
        (k : ℕ) (bytes : List ℕ) (w : World)
        → w.calm ≡ k
        → Unit {0}
          × ((send_at k bytes w).1.calm ≤ w.calm)
          × (((send_at k bytes w).0 ≡ failed 4) → (send_at k bytes w).1.calm < w.calm)
    send_calm (suc k) bytes w c = (tt, omega arith, λ e. omega arith)
    send_calm zero [] w c = (tt, omega arith, λ e. cc)
    send_calm zero (b ∷ bs) w c = (tt, omega arith, λ e. cc)

pub send-progress :
    (b : ℕ) (bs : List ℕ) (w : World) (n : ℕ)
    → (system.send (some 3) (b ∷ bs) w).0 ≡ value n
    → 0 < n
send-progress b bs w n = by_calm w.calm
  where
    by_calm : (k : ℕ) → (send_at k (b ∷ bs) w).0 ≡ value n → 0 < n
    by_calm (suc k) e = cc
    by_calm zero e = ground arith

pub system-Descriptors : Descriptors system (λ w. w.opened) (λ w. w.calm)
system-Descriptors = record {
  socket_opens = socket_opens;
  close_closes = λ fd w rest h. close_closes fd w.calm w.opened w rest refl refl h;
  close_closed = λ fd w n. close_closed fd w.calm w.opened w refl n;
  getaddrinfo_keeps = λ w. (refl, omega arith);
  setsockopt_keeps = λ fd o ds w h. (h, omega arith, λ e. cc);
  get_fd_keeps = λ fd ds w h. (h, omega arith, λ e. cc);
  set_fd_keeps = λ fd flags ds w h. (h, omega arith, λ e. cc);
  get_file_keeps = λ fd ds w h. (h, omega arith, λ e. cc);
  set_file_keeps = λ fd flags ds w h. (h, omega arith, λ e. cc);
  connect_keeps = λ fd addr ds w h. (h, omega arith, λ e. ground arith);
  poll_keeps = λ fd ms ds w h. (h, omega arith, λ e. cc);
  error_keeps = λ fd ds w h. (h, omega arith, λ e. cc);
}
  where
    fresh_above : (os : List ℕ) (fd : ℕ) → fresh_fd os ≤ fd → All (λ d. d ≢ fd) os
    fresh_above [] fd l = tt
    fresh_above (o ∷ os) fd l = (λ e. absurd (omega arith), fresh_above os fd (omega arith))

    socket_opens :
        (ai : ℕ) (w : World)
        → (((fd : ℕ) × ((socket_at ai w).0 ≡ value fd)
              × ((socket_at ai w).1.opened ≡ fd ∷ w.opened)
              × All (λ d. d ≢ fd) w.opened)
            ⊎ ((e : ℕ) × ((socket_at ai w).0 ≡ failed e) × ((socket_at ai w).1.opened ≡ w.opened)))
          × ((socket_at ai w).1.calm ≤ w.calm)
    socket_opens zero w = (inr (97, refl, refl), omega arith)
    socket_opens (suc ai) w = (
      inl (fresh_fd w.opened, refl, refl, fresh_above w.opened (fresh_fd w.opened) (omega arith)),
      omega arith,
    )

    close_closes :
        (fd k : ℕ) (os : List ℕ) (w : World) (rest : List ℕ)
        → w.calm ≡ k
        → w.opened ≡ os
        → w.opened ≡ fd ∷ rest
        → ((close_at fd k os w).1.opened ≡ rest)
          × ((((close_at fd k os w).0 ≡ failed 4) × ((close_at fd k os w).1.calm < w.calm))
              ⊎ (((close_at fd k os w).1.calm ≤ w.calm)
                  × (((close_at fd k os w).0 ≡ value tt)
                      ⊎ ((e : ℕ) × ((close_at fd k os w).0 ≡ failed e) × ((e == 4) ≡ false)))))
    close_closes fd k [] w rest c o h = let q : fd ∷ rest ≡ [] = sym h ∙ o in absurd (ground arith)
    close_closes fd zero (x ∷ os) w rest c o h =
        let q : x ∷ os ≡ fd ∷ rest = sym o ∙ h in
        let t : x == fd ≡ true = eq→== x fd cc in rw t (cc, inr (omega arith, inl refl))
    close_closes fd (suc k) (x ∷ os) w rest c o h =
        let q : x ∷ os ≡ fd ∷ rest = sym o ∙ h in
        let t : x == fd ≡ true = eq→== x fd cc in rw t (cc, inl (refl, omega arith))

    refused :
        (t : Bool) (y : Called (Unit {0}) × World) (w : World)
        → t ≡ false
        → (e : ℕ) × ((if t then y else (failed 9, w)).0 ≡ failed e)
          × ((e == 4) ≡ false)
          × ((if t then y else (failed 9, w)).1.opened ≡ w.opened)
          × ((if t then y else (failed 9, w)).1.calm ≤ w.calm)
    refused true y w h = absurd (cc)
    refused false y w h = (9, refl, refl, refl, omega arith)

    not_open : (x fd : ℕ) → x ≢ fd → x == fd ≡ false
    not_open x fd n = elim (Bool-cases (x == fd)) [ inl e ↦ absurd (n (==→eq x fd e)) | inr e ↦ e ]

    close_closed :
        (fd k : ℕ) (os : List ℕ) (w : World)
        → w.opened ≡ os
        → All (λ d. d ≢ fd) os
        → (e : ℕ) × ((close_at fd k os w).0 ≡ failed e)
          × ((e == 4) ≡ false)
          × ((close_at fd k os w).1.opened ≡ w.opened)
          × ((close_at fd k os w).1.calm ≤ w.calm)
    close_closed fd k [] w o n = (9, refl, refl, refl, omega arith)
    close_closed fd zero (x ∷ os) w o n = refused (x == fd) _ w (not_open x fd n.0)
    close_closed fd (suc k) (x ∷ os) w o n = refused (x == fd) _ w (not_open x fd n.0)
