-- ===== src/Node/Poll.antt =====
-- poll, runLoop and the registration of callbacks of SpwRmapTCPNodeImpl
-- (include/spw_rmap/internal/spw_rmap_tcp_node_impl.hh). `recv_some` and `send_all` are the
-- backend's; a backend whose sends go another way each time is another `send_all` in each round.
pub mod Arrivals
pub mod Laws
pub mod Transaction
pub mod Loop
use spw_rmap.Base.{
  ℕ, zero, suc, List, [], ◌∷◌, Bool, true, false, Option, none, some, if◌then◌else◌,
}
use spw_rmap.Rmap.{Packet, PacketType, Result, ok, err, fault, ErrorCode}
use spw_rmap.Node.Table.{Table, ◌>>=◌}
use spw_rmap.Node.Operations.{handle_reply}
use spw_rmap.Node.Send.{SendAll, Sent}
use spw_rmap.Node.Serve.{serve_read, serve_write}
use spw_rmap.Node.Link.{RecvSome, Receiver, Outcome, spent, done}
use spw_rmap.Node.Receive.{receive_packet}
use spw_rmap.Tcp.System.{ℤ}

-- A node: the receiving side, the transactions, and the members that serving a command uses. A
-- callback of the user gives `none` when it throws.
pub record Node (S : Type 0) : Type 0 where
  pub receiver : Receiver S
  pub table : Table
  pub send_buf : List ℕ
  pub on_read_callback : Option (Packet → Option (List ℕ))
  pub on_write_callback : Option (Packet → Option (Unit {0}))
  pub send_timeout : ℤ
  pub running : Bool
  pub shutdowned : Bool

abbrev pub register_on_read : {S : Type 0} → (Packet → Option (List ℕ)) → Node S → Node S
register_on_read on_read n = record n { on_read_callback = some on_read }

abbrev pub register_on_write : {S : Type 0} → (Packet → Option (Unit {0})) → Node S → Node S
register_on_write on_write n = record n { on_write_callback = some on_write }

-- What poll uses of the class that derives from the node: its virtual functions.
pub record Derived (S : Type 0) : Type 0 where
  pub is_shutdowned : Node S → Bool
  pub shutdown : Node S → Result (Unit {0}) × Node S

-- A result of a case of poll that only fails or goes on.
abbrev pub polled : Result (Unit {0}) → Result Bool
polled (ok _) = ok true
polled (err e) = err e
polled fault = fault

abbrev pub with_sent : {S : Type 0} → Sent → Node S → Result Bool × Node S
with_sent (x, buf) n = (polled x, record n { send_buf = buf })

abbrev pub replied :
    {S : Type 0} → Option (Result (Unit {0}) × Table) → Node S → Option (Result Bool × Node S)
replied none n = none
replied (some (x, t)) n = some (polled x, record n { table = t })

-- The `switch` over the type of the packet.
unfoldable pub dispatch_packet :
    {S : Type 0} → SendAll → PacketType → Packet → Node S → Option (Result Bool × Node S)
dispatch_packet send_all PacketType.read packet n = some (
    with_sent (serve_read send_all n.on_read_callback n.receiver.buffer_policy n.send_buf packet) n)
dispatch_packet send_all PacketType.write packet n = some (
    with_sent (serve_write send_all n.on_write_callback n.receiver.buffer_policy n.send_buf packet)
      n)
dispatch_packet send_all PacketType.read_reply packet n = replied (handle_reply packet n.table) n
dispatch_packet send_all PacketType.write_reply packet n = replied (handle_reply packet n.table) n
dispatch_packet send_all PacketType.undefined packet n = some (ok true, n)

-- What follows a shutdown at the end of the stream.
abbrev pub ended : {S : Type 0} → Result (Unit {0}) × Node S → Result Bool × Node S
ended (ok _, n) = (ok false, n)
ended (err e, n) = (err e, n)
ended (fault, n) = (fault, n)

unfoldable pub after_receive :
    {S : Type 0} → Derived S → SendAll → Result ℕ → Node S → Option (Result Bool × Node S)
after_receive d send_all fault n = some (fault, n)
after_receive d send_all (err e) n = some (if d.is_shutdowned n then ok false else err e, n)
after_receive d send_all (ok zero) n = some (ended (d.shutdown n))
after_receive d send_all (ok (suc _)) n =
    dispatch_packet send_all n.receiver.packet.type n.receiver.packet n

abbrev pub received :
    {S : Type 0} → Derived S → SendAll → Node S → Outcome S ℕ → Option (Result Bool × Node S)
received d send_all n spent = none
received d send_all n (done x r) = after_receive d send_all x (record n { receiver = r })

-- poll, for packets of as many frames as `frames` says. `none` is the end of the fuel, or of the
-- program in the table of transactions.
unfoldable pub poll :
    {S : Type 0} → RecvSome S → Derived S → SendAll → ℕ → Node S → Option (Result Bool × Node S)
poll recv_some d send_all frames n =
    received d send_all n (receive_packet recv_some frames n.receiver)

-- What a round of runLoop does with the result of poll.
abbrev pub after_poll :
    {S : Type 0}
    → Result Bool
    → Node S
    → (Node S → Option (Result (Unit {0}) × Node S))
    → Option (Result (Unit {0}) × Node S)
after_poll (ok true) n next = next n
after_poll (ok false) n next = some (ok tt, n)
after_poll (err e) n next = some (err e, n)
after_poll fault n next = some (fault, n)

-- The loop of runLoop, with the backend's sendAll of each round.
unfoldable pub poll_loop :
    {S : Type 0}
    → RecvSome S
    → Derived S
    → ℕ
    → List SendAll
    → Node S
    → Option (Result (Unit {0}) × Node S)
poll_loop recv_some d frames [] n = none
poll_loop recv_some d frames (send_all ∷ later) n =
    if n.running
    then (do
      (x, n') ← poll recv_some d send_all frames n
      after_poll x n' (poll_loop recv_some d frames later))
    else some (ok tt, n)

unfoldable pub run_loop :
    {S : Type 0}
    → RecvSome S
    → Derived S
    → ℕ
    → List SendAll
    → Node S
    → Option (Result (Unit {0}) × Node S)
run_loop recv_some d frames rounds n =
    poll_loop recv_some d frames rounds (record n { running = true })
