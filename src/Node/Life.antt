-- ===== src/Node/Life.antt =====
-- SpwRmapTCPClient and SpwRmapTCPServer of include/spw_rmap/spw_rmap_tcp_node.hh, over the state `S`
-- of their backend, and setSendTimeoutInternal_ of include/spw_rmap/internal/
-- spw_rmap_tcp_node_impl.hh. A call through a null tcp_backend_ is the outcome `fault`.
pub mod Laws
use spw_rmap.Base.{ℕ, Bool, true, false, if◌then◌else◌}
use spw_rmap.Rmap.{Result, ok, err, fault, Errc, ErrorCode}
use spw_rmap.Tcp.System.{ℤ, pos, negsuc}
use spw_rmap.Node.Poll.{Node, Derived}

-- The functions of the backend that the classes call; SpwRmapTCPClient calls `connect` and
-- `disconnect`, and SpwRmapTCPServer `accept_once`.
pub record Backend (S : Type 0) : Type 0 where
  pub connect : ℤ → S → Result (Unit {0}) × S
  pub accept_once : S → Result (Unit {0}) × S
  pub disconnect : S → S
  pub set_send_timeout : ℤ → S → Result (Unit {0}) × S
  pub shutdown : S → Result (Unit {0}) × S

module _ {S : Type 0} (backend : Backend S) where
  abbrev pub Ended : Type 0
  Ended = Result (Unit {0}) × Node S

  abbrev pub with_stream : S → Node S → Node S
  with_stream s n = record n { receiver = record n.receiver { stream = s } }

  abbrev pub after_timeout : Result (Unit {0}) × S → Node S → Ended
  after_timeout (x, s) n = (x, with_stream s n)

  unfoldable pub set_send_timeout : ℤ → Node S → Ended
  set_send_timeout (negsuc k) n = (err (ErrorCode.errc Errc.invalid_argument), n)
  set_send_timeout (pos us) n =
      if n.receiver.connected
      then after_timeout (backend.set_send_timeout (pos us) n.receiver.stream)
          (record n { send_timeout = pos us })
      else (ok tt, record n { send_timeout = pos us })

  -- A result of the backend that ends connect: an error behind a disconnect.
  abbrev pub or_disconnect : Result (Unit {0}) × S → Node S → (S → Ended) → Ended
  or_disconnect (ok _, s) n next = next s
  or_disconnect (err e, s) n next = (err e, with_stream (backend.disconnect s) n)
  or_disconnect (fault, s) n next = (fault, with_stream s n)

  unfoldable pub connect : ℤ → Node S → Ended
  connect timeout n =
      if n.receiver.connected
      then (let n1 = record n { shutdowned = false } in
          or_disconnect (backend.connect timeout n.receiver.stream) n1 λ s.
            or_disconnect (backend.set_send_timeout n.send_timeout s) n1
              λ s'. (ok tt, with_stream s' n1))
      else (fault, n)

  -- What follows the backend's shutdown: the client drops its backend, whose destructor disconnects.
  abbrev pub after_shutdown : Bool → Result (Unit {0}) × S → Node S → Ended
  after_shutdown keep (ok _, s) n = (
    ok tt,
    record n {
      shutdowned = true;
      receiver = record n.receiver {
        stream = if keep then s else backend.disconnect s;
        connected = keep;
      };
    },
  )
  after_shutdown keep (err e, s) n = (err e, record (with_stream s n) { shutdowned = true })
  after_shutdown keep (fault, s) n = (fault, record (with_stream s n) { shutdowned = true })

  unfoldable pub client_shutdown : Node S → Ended
  client_shutdown n =
      if n.receiver.connected
      then after_shutdown false (backend.shutdown n.receiver.stream) n
      else (ok tt, n)

  unfoldable pub server_shutdown : Node S → Ended
  server_shutdown n =
      if n.receiver.connected
      then after_shutdown true (backend.shutdown n.receiver.stream) n
      else (ok tt, n)

  -- What follows a send time-out that cannot be set on an accepted connection.
  abbrev pub or_shutdown : Result (Unit {0}) × S → Node S → Ended
  or_shutdown (ok _, s) n = (ok tt, record (with_stream s n) { shutdowned = false })
  or_shutdown (fault, s) n = (fault, with_stream s n)
  or_shutdown (err e, s) n = elim (backend.shutdown s).0 [
    | ok _ ↦ (err e, with_stream (backend.shutdown s).1 n)
    | err e' ↦ (err e', with_stream (backend.shutdown s).1 n)
    | fault ↦ (fault, with_stream (backend.shutdown s).1 n)
  ]

  abbrev pub accepted : Result (Unit {0}) × S → Node S → Ended
  accepted (ok _, s) n = or_shutdown (backend.set_send_timeout n.send_timeout s) n
  accepted (err e, s) n = (err e, with_stream s n)
  accepted (fault, s) n = (fault, with_stream s n)

  unfoldable pub accept_once : Node S → Ended
  accept_once n =
      if n.receiver.connected
      then accepted (backend.accept_once n.receiver.stream) n
      else (fault, n)

  -- The virtual functions that poll calls.
  abbrev pub client : Derived S
  client = record { is_shutdowned = λ n. n.shutdowned; shutdown = client_shutdown }

  abbrev pub server : Derived S
  server = record { is_shutdowned = λ n. n.shutdowned; shutdown = server_shutdown }
