-- ===== src/Tcp/Client.antt =====
-- TCPClient of src/tcp_client.cc; its member fd_ is `none` where it is negative.
pub mod Setup
pub mod Connect
pub mod Transfer
use spw_rmap.Base.{
  ℕ, zero, suc, List, [], ◌∷◌, Bool, true, false, ◌||◌, not, Option, none, some, length, drop, ltb,
  ◌==◌, if◌then◌else◌, bit_and,
}
use spw_rmap.Rmap.{Result, ok, err, fault, Errc, ErrorCode}
use spw_rmap.Tcp.System.{
  ℤ, Called, value, failed, SysCall, AddrInfo, addresses, gai_error, gai_system, System,
}
use spw_rmap.Tcp.Steps.{
  M, ◌>>=◌, ◌>>◌, pure, fail, check, retry, close_retry, close_fd, transfer_error,
}
use spw_rmap.Tcp.Options.{set_sockopts, connect_with_timeout}

module _ {W : Type 0} (sys : System W) (rounds : ℕ) where
  -- The end of connect: its result, fd_ and the system.
  abbrev pub Connected : Type 0
  Connected = Option (Result (Unit {0}) × Option ℕ × W)

  -- A socket that could not be set up is closed, and the loop goes on.
  unfoldable pub try_next :
      ℕ → Option (Result (Unit {0}) × W) → (Result (Unit {0}) → W → Connected) → Connected
  try_next fd none next = none
  try_next fd (some (ok u, w)) next = some (ok u, some fd, w)
  try_next fd (some (x, w)) next = elim (close_retry sys rounds fd w) [
    | none ↦ none
    | some (_, w') ↦ next x w'
  ]

  abbrev pub with_socket :
      Called ℕ × W → (Result (Unit {0}) → W → Connected) → (ℕ → W → Connected) → Connected
  with_socket (failed e, w) next set_up = next (err (ErrorCode.system e)) w
  with_socket (value fd, w) next set_up = set_up fd w

  -- The loop over the addresses; `last` is the result so far.
  unfoldable pub connect_loop : ℤ → List ℕ → Result (Unit {0}) → W → Connected
  connect_loop timeout [] last w = some (last, none, w)
  connect_loop timeout (ai ∷ rest) last w =
      with_socket (sys.socket ai w) (connect_loop timeout rest) λ fd w1.
        try_next fd ((do set_sockopts sys fd; connect_with_timeout sys rounds fd ai timeout) w1)
          (connect_loop timeout rest)

  abbrev pub with_addresses : AddrInfo × W → (List ℕ → W → Connected) → Connected
  with_addresses (gai_system e, w) next = some (err (ErrorCode.system e), none, w)
  with_addresses (gai_error rc, w) next = some (err (ErrorCode.gai rc), none, w)
  with_addresses (addresses ais, w) next = next ais w

  unfoldable pub connect : Option ℕ → ℤ → W → Connected
  connect (some fd) timeout w = some (err (ErrorCode.errc Errc.already_connected), some fd, w)
  connect none timeout w =
      with_addresses (sys.getaddrinfo w)
        λ ais. connect_loop timeout ais (err (ErrorCode.errc Errc.invalid_argument))

  -- disconnect; fd_ is -1 behind it.
  unfoldable pub disconnect : Option ℕ → W → Option (Option ℕ × W)
  disconnect fd w = elim (close_fd sys rounds fd w) [ none ↦ none | some (_, w') ↦ some (none, w') ]

  -- The poll behind a send of no bytes.
  unfoldable pub after_zero : Option (Called (ℕ × ℕ) × W) → Option (Result (Unit {0}) × W)
  after_zero none = none
  after_zero (some (failed e, w)) = some (err (ErrorCode.system e), w)
  after_zero (some (value (count, revents), w)) =
      if count == 0
      then some (err (ErrorCode.errc Errc.timed_out), w)
      else if not (bit_and revents sys.poll_failures == 0)
      then some (err (ErrorCode.errc Errc.connection_aborted), w)
      else if bit_and revents sys.pollout == 0
      then some (err (ErrorCode.errc Errc.io_error), w)
      else some (ok tt, w)

  -- One round of the loop of sendAll on `bytes`, and the rounds behind it.
  unfoldable pub after_send :
      ℕ
      → Bool
      → List ℕ
      → Called ℕ × W
      → (Bool → List ℕ → M W (Unit {0}))
      → Option (Result (Unit {0}) × W)
  after_send fd retried_zero bytes (failed e, w) again =
      if e == sys.eintr then again retried_zero bytes w else some (err (transfer_error sys e), w)
  after_send fd retried_zero bytes (value zero, w) again =
      if retried_zero
      then some (err (ErrorCode.errc Errc.io_error), w)
      else ((λ w'. after_zero (retry sys.eintr rounds (sys.poll fd 10) w')) >> again true bytes) w
  after_send fd retried_zero bytes (value (suc n), w) again =
      if ltb (length bytes) (suc n)
      then some (fault, w)
      else again retried_zero (drop (suc n) bytes) w

  unfoldable pub send_loop : ℕ → ℕ → Bool → List ℕ → M W (Unit {0})
  send_loop zero fd retried_zero bytes w = none
  send_loop (suc k) fd retried_zero [] w = some (ok tt, w)
  send_loop (suc k) fd retried_zero (b ∷ bs) w =
      after_send fd retried_zero (b ∷ bs) (sys.send (some fd) (b ∷ bs) w) (send_loop k fd)

  unfoldable pub send_all : ℕ → Option ℕ → List ℕ → M W (Unit {0})
  send_all k none bytes = fail (ErrorCode.errc Errc.not_connected)
  send_all k (some fd) bytes = send_loop k fd false bytes

  -- The result of recv, where EINTR calls it again. No bytes are an error.
  unfoldable pub after_recv : Called (List ℕ) × W → M W (List ℕ) → Option (Result (List ℕ) × W)
  after_recv (failed e, w) again =
      if e == sys.eintr then again w else some (err (transfer_error sys e), w)
  after_recv (value [], w) again = some (err (ErrorCode.errc Errc.io_error), w)
  after_recv (value (b ∷ bs), w) again = some (ok (b ∷ bs), w)

  unfoldable pub recv_loop : ℕ → Option ℕ → ℕ → M W (List ℕ)
  recv_loop zero fd n w = none
  recv_loop (suc k) fd n w = after_recv (sys.recv fd n w) (recv_loop k fd n)

  unfoldable pub recv_some : ℕ → Option ℕ → ℕ → M W (List ℕ)
  recv_some k fd zero w = some (ok [], w)
  recv_some k fd (suc n) w = recv_loop k fd (suc n) w

  unfoldable pub shutdown : Option ℕ → M W (Unit {0})
  shutdown none w = some (err (ErrorCode.errc Errc.bad_file_descriptor), w)
  shutdown (some fd) w = elim (sys.shutdown fd w).0 [
    | value _ ↦ some (ok tt, (sys.shutdown fd w).1)
    | failed e ↦ some (err (ErrorCode.generic e), (sys.shutdown fd w).1)
  ]
