-- ===== src/Node/Poll/Arrivals.antt =====
-- A poll that receives a whole packet.
use spw_rmap.Base.{
  ℕ, zero, suc, ◌+◌, ◌^◌, ◌≤◌, ◌<◌, ◌≡◌, refl, sym, ap, ◌∙◌, subst, ◌⊎◌, true, some, List, [], ◌∷◌,
  ◌++◌, length, arith, length-append,
}
use spw_rmap.Rmap.{Packet, ok, success}
use spw_rmap.Parser.Dispatch.{parse}
use spw_rmap.Node.Send.{SendAll, auto_resize}
use spw_rmap.Node.Link.{RecvSome, Receiver}
use spw_rmap.Node.Receive.Exact.{IsStream}
use spw_rmap.Node.Receive.Frames.{Item, AllHaveBytes, payload, wire, joined, receive_packet-wire}
use spw_rmap.Node.Poll.{Node, Derived, dispatch_packet, after_receive, received, poll}

after_receive-packet :
    {S : Type 0} (d : Derived S) (send_all : SendAll) (size : ℕ) (n : Node S)
    → 0 < size
    → after_receive d send_all (ok size) n
      ≡ dispatch_packet send_all n.receiver.packet.type n.receiver.packet n
unfolding after_receive
after_receive-packet d send_all zero n h = absurd (omega arith)
after_receive-packet d send_all (suc size) n h = refl

-- A packet that comes in frames `wire items xs` into a node with room for it.
pub record Arrives {S : Type 0} (recv_some : RecvSome S) (pending : S → List ℕ) (n : Node S)
    (items : List Item) (xs rest bytes : List ℕ) : Type 0 where
  pub streams : IsStream recv_some pending
  pub up : n.receiver.connected ≡ true
  pub incoming : pending n.receiver.stream ≡ wire items xs ++ rest
  pub full : AllHaveBytes items
  pub last_full : 0 < length xs
  pub whole : joined items xs ≡ bytes
  pub small : length bytes + 2 < 2 ^ 64
  pub room :
      (n.receiver.buffer_policy ≡ auto_resize) ⊎ (length bytes + 2 ≤ length n.receiver.recv_buf)

joined-positive : (items : List Item) (xs : List ℕ) → 0 < length xs → 0 < length (joined items xs)
joined-positive [] xs h = h
joined-positive (i ∷ is) xs h =
    omega (arith, joined-positive is xs h, length-append (payload i) (joined is xs))

module _ {S : Type 0} (recv_some : RecvSome S) (pending : S → List ℕ) (d : Derived S)
    (send_all : SendAll) (n : Node S) (items : List Item) (xs rest bytes : List ℕ)
    (a : Arrives recv_some pending n items xs rest bytes) (k : Packet)
    (parses : parse bytes n.receiver.packet ≡ some (success, k)) where
  pub poll-Arrives :
      (r : Receiver S) × (poll recv_some d send_all (suc (length items)) n
        ≡ dispatch_packet send_all k.type k (record n { receiver = r }))
      × (r.packet ≡ k)
      × (r.buffer_policy ≡ n.receiver.buffer_policy)
      × (pending r.stream ≡ rest)
  unfolding poll
  poll-Arrives =
      let size : ℕ = length (joined items xs) in
      let same : length (joined items xs) ≡ length bytes = ap length a.whole in
      let (buf, s', e, p) =
        receive_packet-wire recv_some pending items xs rest n.receiver k a.streams a.up a.incoming
          a.full a.last_full (omega (arith, a.small))
          (subst
            (λ b.
              (n.receiver.buffer_policy ≡ auto_resize)
              ⊎ (length b + 2 ≤ length n.receiver.recv_buf))
            (sym a.whole) a.room)
          (ap (λ b. parse b n.receiver.packet) a.whole ∙ parses) in
      let r : Receiver S = record n.receiver { recv_buf = buf; packet = k; stream = s' } in
      (
        r,
        ap (received d send_all n) e
            ∙ after_receive-packet d send_all size (record n { receiver = r })
                (joined-positive items xs a.last_full),
        refl,
        refl,
        p,
      )
