-- ===== src/Tcp/Server.antt =====
-- TCPServer of src/tcp_server.cc; its members listen_fd_ and client_fd_ are `none` where they are
-- negative.
pub mod Transfer
use spw_rmap.Base.{
  ℕ, zero, suc, List, [], ◌∷◌, Bool, Option, none, some, length, drop, ltb, ◌==◌, if◌then◌else◌,
}
use spw_rmap.Rmap.{Result, ok, err, fault, Errc, ErrorCode}
use spw_rmap.Tcp.System.{Called, value, failed, AddrInfo, addresses, gai_error, gai_system, System}
use spw_rmap.Tcp.Steps.{
  M, ◌>>=◌, ◌>>◌, pure, fail, check, retry, close_retry, close_fd, transfer_error,
}
use spw_rmap.Tcp.Options.{set_sockopts, set_listening_sockopt}

-- The members of the server.
pub record Fds : Type 0 where
  pub listen_fd : Option ℕ
  pub client_fd : Option ℕ

module _ {W : Type 0} (sys : System W) (rounds : ℕ) where
  abbrev pub Accepted : Type 0
  Accepted = Option (Result (Unit {0}) × Fds × W)

  abbrev pub Next : Type 0
  Next = Result (Unit {0}) → Fds → W → Accepted

  -- `close_retry_(listen_fd_); listen_fd_ = -1; continue;`
  abbrev pub give_up : Result (Unit {0}) → Fds → W → Next → Accepted
  give_up last s w next = elim (close_fd sys rounds s.listen_fd w) [
    | none ↦ none
    | some (_, w') ↦ next last (record s { listen_fd = none }) w'
  ]

  -- The options of the accepted socket; if they fail both sockets are closed.
  abbrev pub set_up_client : ℕ → Option (Result (Unit {0}) × W) → Fds → Next → Accepted
  set_up_client fd none s next = none
  set_up_client fd (some (ok u, w)) s next = next (ok u) s w
  set_up_client fd (some (x, w)) s next = elim (close_fd sys rounds s.listen_fd w) [
    | none ↦ none
    | some (_, w1) ↦ elim (close_retry sys rounds fd w1) [
      | none ↦ none
      | some (_, w2) ↦ next x (record { listen_fd = none; client_fd = none }) w2
    ]
  ]

  abbrev pub after_accept : Option (Called ℕ × W) → Fds → Next → Accepted
  after_accept none s next = none
  after_accept (some (failed e, w)) s next =
      give_up (err (ErrorCode.system e)) (record s { client_fd = none }) w next
  after_accept (some (value fd, w)) s next =
      set_up_client fd (set_sockopts sys fd w) (record s { client_fd = some fd }) next

  -- The set-up of a listening socket: its options, bind and listen.
  abbrev pub after_listening : ℕ → Option (Result (Unit {0}) × W) → Fds → Next → Accepted
  after_listening fd none s next = none
  after_listening fd (some (ok _, w)) s next =
      after_accept (retry sys.eintr rounds (sys.accept fd) w) s next
  after_listening fd (some (x, w)) s next = give_up x s w next

  unfoldable pub after_socket : ℕ → Called ℕ × W → Fds → Next → Accepted
  after_socket ai (failed e, w) s next =
      next (err (ErrorCode.system e)) (record s { listen_fd = none }) w
  after_socket ai (value fd, w) s next =
      after_listening fd
        ((do set_listening_sockopt sys fd; check (sys.bind fd ai); check (sys.listen fd)) w)
        (record s { listen_fd = some fd }) next

  -- The loop over the addresses; it goes on behind an accepted connection too.
  unfoldable pub accept_loop : List ℕ → Next
  accept_loop [] last s w = some (last, s, w)
  accept_loop (ai ∷ rest) last s w = after_socket ai (sys.socket ai w) s (accept_loop rest)

  -- Behind the loop.
  unfoldable pub after_loop : Accepted → Accepted
  after_loop none = none
  after_loop (some (last, s, w)) = elim s.client_fd [
    | none ↦ some (last, s, w)
    | some _ ↦ give_up (ok tt) s w λ last' s' w'. some (last', s', w')
  ]

  abbrev pub with_addresses : AddrInfo × W → Fds → (List ℕ → W → Accepted) → Accepted
  with_addresses (gai_error rc, w) s next = some (err (ErrorCode.gai rc), s, w)
  with_addresses (gai_system e, w) s next = some (err (ErrorCode.gai sys.eai_system), s, w)
  with_addresses (addresses ais, w) s next = next ais w

  unfoldable pub accept_once : Fds → W → Accepted
  accept_once s w =
      with_addresses (sys.getaddrinfo w) s
        λ ais w1. after_loop (accept_loop ais (err (ErrorCode.errc Errc.invalid_argument)) s w1)

  -- One round of the loop of sendAll on `bytes`, and the rounds behind it.
  unfoldable pub after_send :
      List ℕ → Called ℕ × W → (List ℕ → M W (Unit {0})) → Option (Result (Unit {0}) × W)
  after_send bytes (failed e, w) again =
      if e == sys.eintr then again bytes w else some (err (transfer_error sys e), w)
  after_send bytes (value n, w) again =
      if ltb (length bytes) n then some (fault, w) else again (drop n bytes) w

  unfoldable pub send_all : ℕ → Option ℕ → List ℕ → M W (Unit {0})
  send_all zero fd bytes w = none
  send_all (suc k) fd [] w = some (ok tt, w)
  send_all (suc k) fd (b ∷ bs) w = after_send (b ∷ bs) (sys.send fd (b ∷ bs) w) (send_all k fd)

  -- The result of recv, where EINTR calls it again. No bytes are the end of the stream.
  unfoldable pub after_recv : Called (List ℕ) × W → M W (List ℕ) → Option (Result (List ℕ) × W)
  after_recv (failed e, w) again =
      if e == sys.eintr then again w else some (err (transfer_error sys e), w)
  after_recv (value bytes, w) again = some (ok bytes, w)

  unfoldable pub recv_loop : ℕ → Option ℕ → ℕ → M W (List ℕ)
  recv_loop zero fd n w = none
  recv_loop (suc k) fd n w = after_recv (sys.recv fd n w) (recv_loop k fd n)

  unfoldable pub recv_some : ℕ → Option ℕ → ℕ → M W (List ℕ)
  recv_some k fd zero w = some (ok [], w)
  recv_some k fd (suc n) w = recv_loop k fd (suc n) w

  unfoldable pub shutdown : Option ℕ → M W (Unit {0})
  shutdown none w = some (err (ErrorCode.errc Errc.bad_file_descriptor), w)
  shutdown (some fd) w = elim (sys.shutdown fd w).0 [
    | value _ ↦ some (ok tt, (sys.shutdown fd w).1)
    | failed e ↦ some (err (ErrorCode.generic e), (sys.shutdown fd w).1)
  ]

  -- The destructor.
  unfoldable pub close_all : Fds → M W (Unit {0})
  close_all s = do close_fd sys rounds s.client_fd; close_fd sys rounds s.listen_fd
