-- ===== src/Node/PollTests.antt =====
-- The theorems on polling at concrete streams.
use spw_rmap.Base.{
  ℕ, ◌≡◌, refl, inl, true, false, Option, some, List, [], ◌∷◌, ◌++◌, take, drop, replicate,
  get_elem?, arith,
}
use spw_rmap.Rmap.{Packet, ok, ReadPacketConfig}
use spw_rmap.Builder.Read.Bytes.{read_packet}
use spw_rmap.Builder.ReadReply.Bytes.{read_reply_packet}
use spw_rmap.Builder.WriteReply.Bytes.{write_reply_packet}
use spw_rmap.Parser.Fields.Total.{strip_zeros}
use spw_rmap.Node.Frame.{frame_header}
use spw_rmap.Node.Table.{Table}
use spw_rmap.Node.Tests.{
  two_free, two_free-IsValid, one_busy, one_busy-eq, first_operation, accept, sent,
}
use spw_rmap.Node.Send.{write_config, read_config}
use spw_rmap.Node.Send.Room.{frame}
use spw_rmap.Node.SendTests.{small_target, sender, short_backend, two_at_a_time}
use spw_rmap.Node.Receive.Frames.{Item, fragment, wire}
use spw_rmap.Node.Poll.{Node, Derived, polled, poll}
use spw_rmap.Node.Poll.Arrivals.{Arrives}
use spw_rmap.Node.Poll.Laws.{
  PollsTo, answer_to_read, answer_to_write, poll-read_command, poll-write_command,
}
use spw_rmap.Node.Poll.Transaction.{End, end_poll, reply_config, read_transaction}
use spw_rmap.Tcp.System.{pos}
use spw_rmap.Node.ReceiveTests.{all, two_at_a_time-IsStream, items, last_bytes, receiver}

abbrev derived : Derived (List ℕ)
derived = record { is_shutdowned = λ n. n.shutdowned; shutdown = λ n. (ok tt, n) }

abbrev read_four : Packet → Option (List ℕ)
read_four packet = some (1 ∷ 2 ∷ 3 ∷ 4 ∷ [])

abbrev accept_write : Packet → Option (Unit {0})
accept_write packet = some tt

abbrev node : Table → List ℕ → Node (List ℕ)
node t s = record {
  receiver = receiver s;
  table = t;
  send_buf = replicate 8 0;
  on_read_callback = some read_four;
  on_write_callback = some accept_write;
  send_timeout = pos 500000;
  running = false;
  shutdowned = false;
}

poll-write_command_example :
    PollsTo all
      (poll two_at_a_time derived short_backend 3 (node two_free (wire items last_bytes ++ 1 ∷ [])))
      (polled (
        short_backend (
          frame (
            write_reply_packet
              (answer_to_write (write_config sender small_target 32 0x1000 (7 ∷ 8 ∷ [])))))))
      two_free
      (1 ∷ [])
poll-write_command_example =
    poll-write_command two_at_a_time all derived short_backend
      (node two_free (wire items last_bytes ++ 1 ∷ [])) items last_bytes (1 ∷ [])
      (write_config sender small_target 32 0x1000 (7 ∷ 8 ∷ [])) accept_write (omega arith)
      (record {
        streams = two_at_a_time-IsStream;
        up = refl;
        incoming = refl;
        full = omega arith;
        last_full = omega arith;
        whole = refl;
        small = omega arith;
        room = inl refl;
      })
      refl refl (inl refl)

abbrev config : ReadPacketConfig
config = read_config sender small_target 32 0x1000 4

abbrev read_bytes : List ℕ
read_bytes = read_packet config

abbrev read_items : List Item
read_items = fragment (take 3 read_bytes) ∷ []

read-Arrives :
    Arrives two_at_a_time all
      (node two_free (wire read_items (drop 3 read_bytes) ++ 1 ∷ []))
      read_items
      (drop 3 read_bytes)
      (1 ∷ [])
      read_bytes
read-Arrives = record {
  streams = two_at_a_time-IsStream;
  up = refl;
  incoming = refl;
  full = omega arith;
  last_full = omega arith;
  whole = refl;
  small = omega arith;
  room = inl refl;
}

poll-read_command_example :
    PollsTo all
      (poll two_at_a_time derived short_backend 2
        (node two_free (wire read_items (drop 3 read_bytes) ++ 1 ∷ [])))
      (polled
        (short_backend (frame (read_reply_packet (answer_to_read config (1 ∷ 2 ∷ 3 ∷ 4 ∷ []))))))
      two_free
      (1 ∷ [])
poll-read_command_example =
    poll-read_command two_at_a_time all derived short_backend
      (node two_free (wire read_items (drop 3 read_bytes) ++ 1 ∷ [])) read_items (drop 3 read_bytes)
      (1 ∷ []) config read_four (1 ∷ 2 ∷ 3 ∷ 4 ∷ []) (omega arith) read-Arrives refl refl (inl refl)

abbrev target : End (List ℕ)
target = record {
  recv_some = two_at_a_time;
  pending = all;
  derived = derived;
  send_all = short_backend;
  node = node two_free (wire read_items (drop 3 read_bytes) ++ 1 ∷ []);
  items = read_items;
  last = drop 3 read_bytes;
  rest = 1 ∷ [];
}

abbrev reply_bytes : List ℕ
reply_bytes = read_reply_packet (reply_config sender small_target 32 0x1000 4 (1 ∷ 2 ∷ 3 ∷ 4 ∷ []))

abbrev initiator : End (List ℕ)
initiator = record {
  recv_some = two_at_a_time;
  pending = all;
  derived = derived;
  send_all = short_backend;
  node = node one_busy (wire [] reply_bytes);
  items = [];
  last = reply_bytes;
  rest = [];
}

reply-Arrives :
    Arrives two_at_a_time all (node one_busy (wire [] reply_bytes)) [] reply_bytes [] reply_bytes
unfolding frame_header strip_zeros
reply-Arrives = record {
  streams = two_at_a_time-IsStream;
  up = refl;
  incoming = refl;
  full = tt;
  last_full = omega arith;
  whole = refl;
  small = omega arith;
  room = inl refl;
}

read_transaction_example :
    PollsTo all (end_poll target) (polled (short_backend (frame reply_bytes))) two_free (1 ∷ [])
    × ((t2 : Table) × PollsTo all (end_poll initiator) (ok true) t2 []
        × (get_elem? t2.promises 0 ≡ some (some (ok tt))))
unfolding strip_zeros
read_transaction_example =
    read_transaction initiator target sender small_target 32 0x1000 4 5 6 [] accept sent two_free
      first_operation read_four (1 ∷ 2 ∷ 3 ∷ 4 ∷ []) two_free-IsValid one_busy-eq refl (omega arith)
      read-Arrives refl refl (inl refl) (omega arith) reply-Arrives
