-- ===== src/Node/Poll/Loop.antt =====
-- runLoop ends when the stream ends, and keeps the transactions in order.
use spw_rmap.Base.{
  ℕ, zero, suc, ◌<◌, ◌≡◌, refl, sym, ap, subst, ◌⊎◌, inl, inr, Bool, true, false, Option, some,
  List, [], ◌∷◌, length, if◌then◌else◌, Bool-cases, arith,
}
use spw_rmap.Rmap.{Packet, PacketType, Result, ok, err, fault, ErrorCode}
use spw_rmap.Node.Table.{◌>>=◌}
use spw_rmap.Node.Operations.{handle_reply}
use spw_rmap.Node.Table.Valid.{IsValid}
use spw_rmap.Node.Operations.Cases.{handle_reply-IsValid}
use spw_rmap.Node.Send.{SendAll}
use spw_rmap.Node.Link.{RecvSome, Receiver}
use spw_rmap.Node.Receive.Takes.{EndsDry}
use spw_rmap.Node.Receive.Ends.{receive_packet-Progress}
use spw_rmap.Node.Poll.{
  Node, Derived, polled, replied, dispatch_packet, ended, after_receive, received, poll, after_poll,
  poll_loop, run_loop,
}

module _ {S : Type 0} (recv_some : RecvSome S) (pending : S → List ℕ)
    (i : EndsDry recv_some pending) (d : Derived S)
    (same_table : (n : Node S) → (d.shutdown n).1.table ≡ n.table) where
  abbrev left : Node S → ℕ
  left n = length (pending n.receiver.stream)

  -- A step that ends in a node with a valid table.
  abbrev Goes : {A : Type 0} → Option (Result A × Node S) → (Result A → Node S → Type 0) → Type 0
  Goes {A} o P = (x : Result A) × (n' : Node S) × (o ≡ some (x, n')) × IsValid n'.table × P x n'

  replied-Goes :
      (packet : Packet) (send_all : SendAll) (n : Node S)
      → IsValid n.table
      → Goes (replied (handle_reply packet n.table) n) (λ x n'. n'.receiver ≡ n.receiver)
  replied-Goes packet send_all n v =
      let (x, t, e, w) = handle_reply-IsValid n.table v packet in
      (polled x, record n { table = t }, ap (λ o. replied o n) e, w, refl)

  dispatch_packet-Goes :
      (send_all : SendAll) (type : PacketType) (packet : Packet) (n : Node S)
      → IsValid n.table
      → Goes (dispatch_packet send_all type packet n) (λ x n'. n'.receiver ≡ n.receiver)
  unfolding dispatch_packet
  dispatch_packet-Goes send_all PacketType.undefined packet n v = (_, n, refl, v, refl)
  dispatch_packet-Goes send_all PacketType.read packet n v = (_, _, refl, v, refl)
  dispatch_packet-Goes send_all PacketType.write packet n v = (_, _, refl, v, refl)
  dispatch_packet-Goes send_all PacketType.read_reply packet n v = replied-Goes packet send_all n v
  dispatch_packet-Goes send_all PacketType.write_reply packet n v = replied-Goes packet send_all n v

  -- poll goes on only with fewer bytes left.
  abbrev Fewer : ℕ → Result Bool → Node S → Type 0
  Fewer b x n' = (x ≡ ok true) → left n' < b

  ended-Goes :
      (y : Result (Unit {0}) × Node S) (b : ℕ) → IsValid y.1.table → Goes (some (ended y)) (Fewer b)
  ended-Goes (ok _, n) b v = (_, n, refl, v, λ e. cc)
  ended-Goes (err c, n) b v = (_, n, refl, v, λ e. cc)
  ended-Goes (fault, n) b v = (_, n, refl, v, λ e. cc)

  after_receive-Goes :
      (send_all : SendAll) (x : Result ℕ) (n : Node S) (b : ℕ)
      → IsValid n.table
      → (x ≡ ok 0) ⊎ (((e : ErrorCode) × (x ≡ err e)) ⊎ (left n < b))
      → Goes (after_receive d send_all x n) (Fewer b)
  unfolding after_receive
  after_receive-Goes send_all fault n b v h = (_, n, refl, v, λ e. cc)
  after_receive-Goes send_all (err c) n b v h = elim (Bool-cases (d.is_shutdowned n)) [
    | inl q ↦ (ok false, n, rw q refl, v, λ e. cc)
    | inr q ↦ (err c, n, rw q refl, v, λ e. cc)
  ]
  after_receive-Goes send_all (ok zero) n b v h =
      ended-Goes (d.shutdown n) b (subst IsValid (sym (same_table n)) v)
  after_receive-Goes send_all (ok (suc m)) n b v (inl e) = absurd (ground arith)
  after_receive-Goes send_all (ok (suc m)) n b v (inr (inl (c, e))) = absurd (cc)
  after_receive-Goes send_all (ok (suc m)) n b v (inr (inr l)) =
      let (x, n', e, w, same) =
        dispatch_packet-Goes send_all n.receiver.packet.type n.receiver.packet n v in
      (x, n', e, w, λ _. subst (λ (r : Receiver S). length (pending r.stream) < b) (sym same) l)

  poll-Goes :
      (send_all : SendAll) (frames : ℕ) (n : Node S)
      → IsValid n.table
      → left n < frames
      → Goes (poll recv_some d send_all frames n) (Fewer (left n))
  unfolding poll
  poll-Goes send_all frames n v h =
      let (y, r, e, l, how) = receive_packet-Progress recv_some pending i frames n.receiver h in
      subst (λ o. Goes (received d send_all n o) (Fewer (left n))) (sym e)
        (after_receive-Goes send_all y (record n { receiver = r }) (left n) v how)

  after_poll-Goes :
      (x : Result Bool) (n : Node S) (next : Node S → Option (Result (Unit {0}) × Node S))
      → IsValid n.table
      → ((x ≡ ok true) → Goes (next n) (λ x n'. Unit {0}))
      → Goes (after_poll x n next) (λ x n'. Unit {0})
  after_poll-Goes (ok true) n next v h = h refl
  after_poll-Goes (ok false) n next v h = (_, n, refl, v, tt)
  after_poll-Goes (err c) n next v h = (_, n, refl, v, tt)
  after_poll-Goes fault n next v h = (_, n, refl, v, tt)

  by_running :
      (t : Bool) (o : Option (Result (Unit {0}) × Node S)) (n : Node S)
      → IsValid n.table
      → Goes o (λ x n'. Unit {0})
      → Goes (if t then o else some (ok tt, n)) (λ x n'. Unit {0})
  by_running true o n v h = h
  by_running false o n v h = (_, n, refl, v, tt)

  poll_loop-Goes :
      (frames : ℕ) (rounds : List SendAll) (n : Node S)
      → IsValid n.table
      → left n < frames
      → left n < length rounds
      → Goes (poll_loop recv_some d frames rounds n) (λ x n'. Unit {0})
  unfolding poll_loop
  poll_loop-Goes frames [] n v f h = absurd (omega arith)
  poll_loop-Goes frames (send_all ∷ later) n v f h =
      let (x, n1, e, w, fewer) = poll-Goes send_all frames n v f in
      let next : Node S → Option (Result (Unit {0}) × Node S) =
        poll_loop recv_some d frames later in
      by_running n.running _ n v (
        subst
          (λ (o : Option (Result Bool × Node S)).
            Goes (o >>= λ (x, n'). after_poll x n' next) (λ x n'. Unit {0}))
          (sym e)
          (after_poll-Goes x n1 next w (λ t.
            poll_loop-Goes frames later n1 w (omega (arith, fewer t)) (omega (arith, fewer t)))))

-- On a stream that ends, runLoop ends, whatever bytes arrive: with a valid table, a shutdown that
-- leaves the table alone, and fuel for one more frame and one more round than bytes are left, it
-- has a result, `fault` where it gets out of the receive buffer or of a span, and the table is valid
-- then: no packet leads to an access out of the table's bounds, a failed assertion or a promise that
-- is set twice in it.
pub run_loop-ends :
    {S : Type 0} (recv_some : RecvSome S) (pending : S → List ℕ) (d : Derived S) (frames : ℕ)
    (rounds : List SendAll) (n : Node S)
    → EndsDry recv_some pending
    → ((m : Node S) → (d.shutdown m).1.table ≡ m.table)
    → IsValid n.table
    → length (pending n.receiver.stream) < frames
    → length (pending n.receiver.stream) < length rounds
    → (x : Result (Unit {0})) × (n' : Node S) × (run_loop recv_some d frames rounds n
        ≡ some (x, n'))
      × IsValid n'.table
unfolding run_loop
run_loop-ends recv_some pending d frames rounds n i same v f h =
    let (x, n', e, w, _) =
      poll_loop-Goes recv_some pending i d same frames rounds (record n { running = true }) v f h in
    (x, n', e, w)
