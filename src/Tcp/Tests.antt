-- ===== src/Tcp/Tests.antt =====
-- The backends' theorems on the small system.
use spw_rmap.Base.{◌≡◌, refl, true, false, [], ◌∷◌, some, none, replicate, arith}
use spw_rmap.Rmap.{empty_packet, ok, fault}
use spw_rmap.Tcp.System.{pos}
use spw_rmap.Tcp.Delivery.{as_recv_some}
use spw_rmap.Tcp.Stream.{client_recv_some-EndsDry, server_recv_some-EndsDry}
use spw_rmap.Tcp.Client
use spw_rmap.Tcp.Server
use spw_rmap.Tcp.Client.Connect.{Connects, connect-Connects}
use spw_rmap.Tcp.Client.Transfer.{Sent, client_send_all-Sent}
use spw_rmap.Tcp.Server.Transfer.{server_send_all-Sent}
use spw_rmap.Node.Receive.Takes.{EndsDry}
use spw_rmap.Node.Send.{auto_resize}
use spw_rmap.Node.Tests.{two_free}
use spw_rmap.Node.Poll.{Node}
use spw_rmap.Node.Life.{Backend, client_shutdown, connect}
use spw_rmap.Node.Life.Laws.{connect-client_shutdown}
use spw_rmap.Tcp.Sample.{
  World, system, system-Receives, system-Sends, send-progress, system-Descriptors,
}

abbrev world : World
world = record { calm = 2; pending = 5 ∷ 6 ∷ 7 ∷ []; sent = 9 ∷ []; opened = 0 ∷ [] }

server_recv_some-EndsDry_example :
    EndsDry
      (as_recv_some (λ (w : World). w.calm) (λ k. Server.recv_some system 3 k (some 3)))
      (λ w. w.pending)
server_recv_some-EndsDry_example =
    server_recv_some-EndsDry system 3 (some 3) (λ w. w.pending) (λ w. w.calm) system-Receives

client_recv_some-EndsDry_example :
    EndsDry
      (as_recv_some (λ (w : World). w.calm) (λ k. Client.recv_some system 3 k (some 3)))
      (λ w. w.pending)
client_recv_some-EndsDry_example =
    client_recv_some-EndsDry system 3 (some 3) (λ w. w.pending) (λ w. w.calm) system-Receives

client_send_all-Sent_example :
    Sent
      (λ (w : World). w.sent)
      (9 ∷ [])
      (1 ∷ 2 ∷ [])
      (Client.send_all system 3 6 (some 3) (1 ∷ 2 ∷ []) world)
client_send_all-Sent_example =
    client_send_all-Sent system 3 (λ w. w.sent) (λ w. w.calm) 6 3 (1 ∷ 2 ∷ []) world system-Sends
      (omega arith) (omega arith)

server_send_all-Sent_example :
    Sent
      (λ (w : World). w.sent)
      (9 ∷ [])
      (1 ∷ 2 ∷ [])
      (Server.send_all system 3 5 (some 3) (1 ∷ 2 ∷ []) world)
server_send_all-Sent_example =
    server_send_all-Sent system 3 (λ w. w.sent) (λ w. w.calm) 5 (some 3) (1 ∷ 2 ∷ []) world
      system-Sends send-progress (omega arith)

connect-Connects_example :
    Connects system
      (λ w. w.opened)
      (λ w. w.calm)
      system-Descriptors
      3
      (0 ∷ [])
      (Client.connect system 3 none (pos 500000) world)
connect-Connects_example =
    connect-Connects system (λ w. w.opened) (λ w. w.calm) 3 (pos 500000) world system-Descriptors
      (omega arith)

abbrev backend : Backend World
backend = record {
  connect = λ t w. (ok tt, w);
  accept_once = λ w. (ok tt, w);
  disconnect = λ w. w;
  set_send_timeout = λ t w. (ok tt, w);
  shutdown = λ w. (ok tt, w);
}

abbrev node : Node World
node = record {
  receiver = record {
    connected = true;
    recv_buf = replicate 8 0;
    buffer_policy = auto_resize;
    packet = empty_packet;
    stream = world;
  };
  table = two_free;
  send_buf = [];
  on_read_callback = none;
  on_write_callback = none;
  send_timeout = pos 500000;
  running = false;
  shutdowned = false;
}

abbrev behind : Node World
behind = (client_shutdown backend node).1

connect-client_shutdown_example : connect backend (pos 100000) behind ≡ (fault, behind)
unfolding client_shutdown
connect-client_shutdown_example = connect-client_shutdown backend node behind (pos 100000) refl refl
