-- ===== src/Tcp/Stream.antt =====
-- recvSome of both backends is the stream that the node reads from.
use spw_rmap.Base.{ℕ, refl, inl, inr, List, Option}
use spw_rmap.Tcp.System.{System}
use spw_rmap.Tcp.Promises.{Receives}
use spw_rmap.Tcp.Client
use spw_rmap.Tcp.Server
use spw_rmap.Node.Receive.Takes.{EndsDry}
use spw_rmap.Tcp.Delivery.{as_recv_some, Round, recv-EndsDry}

server-Round : {W : Type 0} (sys : System W) (rounds : ℕ) → Round sys (Server.after_recv sys rounds)
unfolding Server.after_recv
server-Round sys rounds = record {
  on_error = λ e w again. refl;
  on_bytes = λ b bs w again. refl;
  on_end = λ w again. inl refl;
}

client-Round : {W : Type 0} (sys : System W) (rounds : ℕ) → Round sys (Client.after_recv sys rounds)
unfolding Client.after_recv
client-Round sys rounds = record {
  on_error = λ e w again. refl;
  on_bytes = λ b bs w again. refl;
  on_end = λ w again. inr (_, refl);
}

-- TCPServer's recvSome, on a descriptor where recv gives the next bytes of a stream, is the stream
-- that the node's theorems are about: while bytes are pending it gives one at least off their front,
-- whatever interruptions come, and behind the last one it gives none or an error.
pub server_recv_some-EndsDry :
    {W : Type 0} (sys : System W) (rounds : ℕ) (fd : Option ℕ) (pending : W → List ℕ) (calm : W → ℕ)
    → Receives sys fd pending calm
    → EndsDry (as_recv_some calm (λ k. Server.recv_some sys rounds k fd)) pending
unfolding Server.recv_some Server.recv_loop
server_recv_some-EndsDry sys rounds fd pending calm c =
    recv-EndsDry sys fd pending calm c (Server.after_recv sys rounds) (server-Round sys rounds)
      (λ k. Server.recv_loop sys rounds k fd) (λ k n w. refl)
      (λ k. Server.recv_some sys rounds k fd) (λ k n w. refl)

-- TCPClient's recvSome too, on a descriptor where recv gives the next bytes of a stream, is the
-- stream that the node's theorems are about: while bytes are pending it gives one at least off their
-- front, whatever interruptions come, and behind the last one it gives none or an error.
pub client_recv_some-EndsDry :
    {W : Type 0} (sys : System W) (rounds : ℕ) (fd : Option ℕ) (pending : W → List ℕ) (calm : W → ℕ)
    → Receives sys fd pending calm
    → EndsDry (as_recv_some calm (λ k. Client.recv_some sys rounds k fd)) pending
unfolding Client.recv_some Client.recv_loop
client_recv_some-EndsDry sys rounds fd pending calm c =
    recv-EndsDry sys fd pending calm c (Client.after_recv sys rounds) (client-Round sys rounds)
      (λ k. Client.recv_loop sys rounds k fd) (λ k n w. refl)
      (λ k. Client.recv_some sys rounds k fd) (λ k n w. refl)
