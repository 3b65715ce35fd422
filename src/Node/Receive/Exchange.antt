-- ===== src/Node/Receive/Exchange.antt =====
-- From one node's sendWritePacket_ to another node's recvAndParseOnePacket_.
use spw_rmap.Builder.Write
