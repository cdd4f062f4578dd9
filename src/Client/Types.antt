-- ===== src/Client/Types.antt =====
-- client/src/zksync_types.rs: what a zkSync node answers. The fields that nothing reads are left out.
use zksync_withdrawal_finali.Common.{ℕ, Bool, Option, List}

pub record L2ToL1LogProof : Type 0 where
  pub proof : List ℕ
  pub id : ℕ
  pub root : ℕ

pub record Log : Type 0 where
  pub address : ℕ
  pub topics : List ℕ
  pub data_bytes : List ℕ
  pub block_number : Option ℕ
  pub l1_batch_number : Option ℕ
  pub transaction_hash : Option ℕ

pub record RawLog : Type 0 where
  pub topics : List ℕ
  pub data_bytes : List ℕ

-- `From<Log>`
abbrev pub raw_log : Log → RawLog
raw_log log = record { topics = log.topics; data_bytes = log.data_bytes }

pub record L2ToL1Log : Type 0 where
  pub sender : ℕ
  pub key : ℕ
  pub value : ℕ
  pub is_service : Bool

pub record TransactionReceipt : Type 0 where
  pub transaction_hash : ℕ
  pub block_number : Option ℕ
  pub l1_batch_tx_index : Option ℕ
  pub l1_batch_number : Option ℕ
  pub logs : List Log
  pub l2_to_l1_logs : List L2ToL1Log
