-- ===== src/Node/Send/Laws.antt =====
-- What sendReadPacket_ and sendWritePacket_ hand to the backend.
use spw_rmap.Base.{ℕ, ◌+◌, ◌≤◌, ◌≡◌, List, Option, length, drop}
use spw_rmap.Rmap.{ReadPacketConfig}
use spw_rmap.Builder.Read
use spw_rmap.Builder.Write
use spw_rmap.Node.Send.{
  TargetNode, Sender, SendAll, Sent, make_room, send_frame, expected_length, with_built, with_room,
}

module _ (send_all : SendAll) (s : Sender) (node : TargetNode) (config : ReadPacketConfig)
    (h : length config.reply_address ≤ 12)
    (size_eq : Read.get_total_size config + 1 ≡ expected_length node) where
  abbrev size : ℕ
  size = Read.get_total_size config

  abbrev finish : List ℕ → Sent
  finish built =
      with_room (make_room s.buffer_policy (size + 12) built) built (send_frame send_all size)

  abbrev from_room : Option (List ℕ) → Sent
  from_room o =
      with_room o s.send_buf λ buf. with_built (Read.build config (drop 12 buf)) buf finish
