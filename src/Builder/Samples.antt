-- ===== src/Builder/Samples.antt =====
-- Concrete configurations, for the tests.
use spw_rmap.Base.{ℕ, List, [], ◌∷◌, true, false, replicate}
use spw_rmap.Rmap.{
  ReadPacketConfig, WritePacketConfig, ReadReplyPacketConfig, WriteReplyPacketConfig,
}

abbrev pub read_config : ReadPacketConfig
read_config = record {
  target_space_wire_address = 3 ∷ 5 ∷ [];
  reply_address = 9 ∷ 11 ∷ 13 ∷ 0 ∷ 7 ∷ [];
  target_logical_address = 0x34;
  initiator_logical_address = 0xfe;
  transaction_id = 0x1234;
  extended_address = 0;
  address = 0x20000010;
  data_length = 0x456;
  key = 0xab;
  increment_mode = true;
}

abbrev pub write_config : WritePacketConfig
write_config = record {
  target_space_wire_address = 3 ∷ [];
  reply_address = 1 ∷ [];
  target_logical_address = 0x34;
  initiator_logical_address = 0xfe;
  transaction_id = 7;
  key = 0;
  extended_address = 1;
  address = 0x10000000;
  increment_mode = true;
  reply = true;
  verify_mode = false;
  payload = 1 ∷ 2 ∷ 3 ∷ [];
}

abbrev pub read_reply_config : ReadReplyPacketConfig
read_reply_config = record {
  reply_address = 1 ∷ 2 ∷ [];
  initiator_logical_address = 0xfe;
  status = 0;
  target_logical_address = 0x34;
  transaction_id = 33;
  payload = 8 ∷ 9 ∷ [];
  increment_mode = true;
}

abbrev pub write_reply_config : WriteReplyPacketConfig
write_reply_config = record {
  reply_address = [];
  initiator_logical_address = 0xfe;
  status = 2;
  target_logical_address = 0x34;
  transaction_id = 33;
  increment_mode = false;
  verify_mode = true;
}

abbrev pub span : List ℕ
span = replicate 40 0xee
