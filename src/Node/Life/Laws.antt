-- ===== src/Node/Life/Laws.antt =====
-- The life of a client and of a server: their loops on a TCP connection, and a client behind its
-- shutdown.
use spw_rmap.Base.{
  ℕ, arith, ◌<◌, ◌≡◌, refl, ap, ◌∙◌, sym, Bool, true, false, if◌then◌else◌, List, Option, some,
  length,
}
use spw_rmap.Rmap.{Result, ok, err, fault}
use spw_rmap.Tcp.System.{ℤ, System}
use spw_rmap.Tcp.Promises.{Receives}
use spw_rmap.Tcp.Delivery.{as_recv_some}
use spw_rmap.Tcp.Stream.{client_recv_some-EndsDry, server_recv_some-EndsDry}
use spw_rmap.Tcp.Client
use spw_rmap.Tcp.Server
use spw_rmap.Node.Table.Valid.{IsValid}
use spw_rmap.Node.Send.{SendAll}
use spw_rmap.Node.Poll.{Node, run_loop}
use spw_rmap.Node.Poll.Loop.{run_loop-ends}
use spw_rmap.Node.Life.{
  Backend, after_shutdown, client_shutdown, server_shutdown, connect, client, server,
}

module _ {S : Type 0} (backend : Backend S) where
  after_shutdown-table :
      (keep : Bool) (y : Result (Unit {0}) × S) (n : Node S)
      → (after_shutdown backend keep y n).1.table ≡ n.table
  after_shutdown-table keep (ok _, s) n = refl
  after_shutdown-table keep (err e, s) n = refl
  after_shutdown-table keep (fault, s) n = refl

  if_backend-table :
      (t : Bool) (x : Result (Unit {0}) × Node S) (n : Node S)
      → x.1.table ≡ n.table
      → (if t then x else (ok tt, n)).1.table ≡ n.table
  if_backend-table true x n e = e
  if_backend-table false x n e = refl

  client_shutdown-table : (n : Node S) → (client_shutdown backend n).1.table ≡ n.table
  unfolding client_shutdown
  client_shutdown-table n =
      if_backend-table n.receiver.connected _ n (after_shutdown-table false _ n)

  server_shutdown-table : (n : Node S) → (server_shutdown backend n).1.table ≡ n.table
  unfolding server_shutdown
  server_shutdown-table n =
      if_backend-table n.receiver.connected _ n (after_shutdown-table true _ n)

-- A client's runLoop on a TCP connection, whatever arrives and however it is cut and interrupted,
-- ends when the connection does: with a valid table and fuel for one frame and one round more than
-- bytes are to come, it has a result, `fault` where it gets out of the receive buffer or of a span,
-- and the table is valid then.
client-run_loop-ends :
    {W : Type 0} (sys : System W) (rounds : ℕ) (fd : Option ℕ) (pending : W → List ℕ) (calm : W → ℕ)
    (backend : Backend W) (frames : ℕ) (sends : List SendAll) (n : Node W)
    → Receives sys fd pending calm
    → IsValid n.table
    → length (pending n.receiver.stream) < frames
    → length (pending n.receiver.stream) < length sends
    → (x : Result (Unit {0})) × (n' : Node W) × (run_loop
          (as_recv_some calm (λ k. Client.recv_some sys rounds k fd))
          (client backend)
          frames
          sends
          n
        ≡ some (x, n'))
      × IsValid n'.table
client-run_loop-ends sys rounds fd pending calm backend frames sends n c v f h =
    run_loop-ends _ pending (client backend) frames sends n
      (client_recv_some-EndsDry sys rounds fd pending calm c) (client_shutdown-table backend) v f h

-- The same of a server's runLoop.
server-run_loop-ends :
    {W : Type 0} (sys : System W) (rounds : ℕ) (fd : Option ℕ) (pending : W → List ℕ) (calm : W → ℕ)
    (backend : Backend W) (frames : ℕ) (sends : List SendAll) (n : Node W)
    → Receives sys fd pending calm
    → IsValid n.table
    → length (pending n.receiver.stream) < frames
    → length (pending n.receiver.stream) < length sends
    → (x : Result (Unit {0})) × (n' : Node W) × (run_loop
          (as_recv_some calm (λ k. Server.recv_some sys rounds k fd))
          (server backend)
          frames
          sends
          n
        ≡ some (x, n'))
      × IsValid n'.table
server-run_loop-ends sys rounds fd pending calm backend frames sends n c v f h =
    run_loop-ends _ pending (server backend) frames sends n
      (server_recv_some-EndsDry sys rounds fd pending calm c) (server_shutdown-table backend) v f h

if_true : {A : Type 0} (t : Bool) (x y : A) → t ≡ true → (if t then x else y) ≡ x
if_true t x y e = rw e refl

if_false : {A : Type 0} (t : Bool) (x y : A) → t ≡ false → (if t then x else y) ≡ y
if_false t x y e = rw e refl

dropped :
    {S : Type 0} (backend : Backend S) (y : Result (Unit {0}) × S) (n n' : Node S)
    → after_shutdown backend false y n ≡ (ok tt, n')
    → n'.receiver.connected ≡ false
dropped backend (ok _, s) n n' e = ap (λ z. z.1.receiver.connected) (sym e)
dropped backend (err k, s) n n' e = let q : err k ≡ ok tt = ap (λ z. z.0) e in absurd (ground arith)
dropped backend (fault, s) n n' e = let q : fault ≡ ok tt = ap (λ z. z.0) e in absurd (ground arith)

-- A client that was shut down cannot connect again: where shutdown succeeded on a client with a
-- backend, connect uses the null backend, whatever its time-out is.
pub connect-client_shutdown :
    {S : Type 0} (backend : Backend S) (n n' : Node S) (timeout : ℤ)
    → n.receiver.connected ≡ true
    → client_shutdown backend n ≡ (ok tt, n')
    → connect backend timeout n' ≡ (fault, n')
unfolding client_shutdown connect
connect-client_shutdown backend n n' timeout up e =
    if_false _ _ _
      (dropped backend (backend.shutdown n.receiver.stream) n n' (sym (if_true _ _ _ up) ∙ e))
