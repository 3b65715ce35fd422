-- ===== src/Rmap/Configs.antt =====
-- The configurations of include/spw_rmap/packet_builder.hh. A span is the list of the bytes in it,
-- and an integer a natural number; `Fits` below says that the integers have their widths.
use spw_rmap.Base.{ℕ, List, Bool}

pub record ReadPacketConfig : Type 0 where
  pub target_space_wire_address : List ℕ
  pub reply_address : List ℕ
  pub target_logical_address : ℕ
  pub initiator_logical_address : ℕ
  pub transaction_id : ℕ
  pub extended_address : ℕ
  pub address : ℕ
  pub data_length : ℕ
  pub key : ℕ
  pub increment_mode : Bool

pub record WritePacketConfig : Type 0 where
  pub target_space_wire_address : List ℕ
  pub reply_address : List ℕ
  pub target_logical_address : ℕ
  pub initiator_logical_address : ℕ
  pub transaction_id : ℕ
  pub key : ℕ
  pub extended_address : ℕ
  pub address : ℕ
  pub increment_mode : Bool
  pub reply : Bool
  pub verify_mode : Bool
  pub payload : List ℕ

pub record ReadReplyPacketConfig : Type 0 where
  pub reply_address : List ℕ
  pub initiator_logical_address : ℕ
  pub status : ℕ
  pub target_logical_address : ℕ
  pub transaction_id : ℕ
  pub payload : List ℕ
  pub increment_mode : Bool

pub record WriteReplyPacketConfig : Type 0 where
  pub reply_address : List ℕ
  pub initiator_logical_address : ℕ
  pub status : ℕ
  pub target_logical_address : ℕ
  pub transaction_id : ℕ
  pub increment_mode : Bool
  pub verify_mode : Bool
