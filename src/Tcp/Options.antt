-- ===== src/Tcp/Options.antt =====
-- The functions of src/tcp_client.cc and src/tcp_server.cc that set a socket up.
use spw_rmap.Base.{
  ℕ, ◌/◌, ◌%◌, ◌^◌, ◌-◌, Option, none, some, ltb, ◌==◌, if◌then◌else◌, bit_and, bit_or,
}
use spw_rmap.Rmap.{Result, ok, err, Errc, ErrorCode}
use spw_rmap.Tcp.System.{ℤ, pos, negsuc, Called, value, failed, SockOpt, System}
use spw_rmap.Tcp.Steps.{M, ◌>>=◌, ◌>>◌, pure, fail, check, ignore, when, at_end, retry}

-- The milliseconds of a time-out, as an `int`.
unfoldable pub poll_timeout : ℕ → ℕ
poll_timeout us = let ms = us / 1000 in if ltb (2 ^ 31 - 1) ms then 2 ^ 31 - 1 else ms

module _ {W : Type 0} (sys : System W) where
  abbrev pub set_cloexec : ℕ → M W (Unit {0})
  set_cloexec fd = do
    flags ← check (sys.get_fd_flags fd)
    check (sys.set_fd_flags fd (bit_or flags sys.fd_cloexec))

  -- set_sockopts of the client and server_set_sockopts of the server.
  unfoldable pub set_sockopts : ℕ → M W (Unit {0})
  set_sockopts fd = do check (sys.setsockopt (some fd) SockOpt.tcp_nodelay); set_cloexec fd

  unfoldable pub set_listening_sockopt : ℕ → M W (Unit {0})
  set_listening_sockopt fd = do
    ignore (sys.setsockopt (some fd) SockOpt.reuse_addr)
    ignore (sys.setsockopt (some fd) SockOpt.reuse_port)
    set_cloexec fd

  -- setSendTimeout of both classes.
  unfoldable pub set_send_timeout : Option ℕ → ℤ → M W (Unit {0})
  set_send_timeout fd (negsuc n) = fail (ErrorCode.errc Errc.invalid_argument)
  set_send_timeout fd (pos us) =
      check (sys.setsockopt fd (SockOpt.send_timeout (us / 1000000) (us % 1000000)))

  -- SO_ERROR behind the poll.
  unfoldable pub socket_error : ℕ → M W (Unit {0})
  socket_error fd = do
    soerr ← check (sys.getsockopt_error fd)
    if soerr == 0 then pure tt else fail (ErrorCode.system soerr)

  -- What follows the poll of a connect in progress.
  unfoldable pub after_poll : ℕ → Option (Called (ℕ × ℕ) × W) → Option (Result (Unit {0}) × W)
  after_poll fd none = none
  after_poll fd (some (failed e, w)) = some (err (ErrorCode.system e), w)
  after_poll fd (some (value (count, revents), w)) =
      if count == 0 then some (err (ErrorCode.system sys.etimedout), w) else socket_error fd w

  -- What follows connect.
  unfoldable pub after_connect :
      ℕ → ℕ → ℕ → Option (Called (Unit {0}) × W) → Option (Result (Unit {0}) × W)
  after_connect rounds fd ms none = none
  after_connect rounds fd ms (some (value _, w)) = some (ok tt, w)
  after_connect rounds fd ms (some (failed e, w)) =
      if e == sys.einprogress
      then after_poll fd (retry sys.eintr rounds (sys.poll fd ms) w)
      else some (err (ErrorCode.system e), w)

  -- connect_with_timeout_; `rounds` bounds the loops on EINTR.
  unfoldable pub connect_with_timeout : ℕ → ℕ → ℕ → ℤ → M W (Unit {0})
  connect_with_timeout rounds fd addr (negsuc n) = fail (ErrorCode.errc Errc.invalid_argument)
  connect_with_timeout rounds fd addr (pos us) = do
    oldfl ← check (sys.get_file_flags fd)
    let was_blocking = bit_and oldfl sys.o_nonblock == 0
    when was_blocking (check (sys.set_file_flags fd (bit_or oldfl sys.o_nonblock)))
    λ w.
        at_end
          (after_connect rounds fd (poll_timeout us)
            (retry sys.eintr rounds (sys.connect fd addr) w))
          (when was_blocking (ignore (sys.set_file_flags fd oldfl)))
