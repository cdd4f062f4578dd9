-- ===== src/Storage/Tables.antt =====
-- storage/migrations: the tables as lists of rows. A bigint, integer or numeric cell holds the
-- number that the source casts to it; the casts are the identity on the numbers that occur. Time
-- is a number of seconds.
use Prim.Native.String.{String}
use zksync_withdrawal_finali.Common.{ℕ, Bool, Option, none, some, List, [], ◌∷◌, ltb, if◌then◌else◌}

pub record WithdrawalRow : Type 0 where
  pub id : ℕ
  pub tx_hash : ℕ
  pub l2_block_number : ℕ
  pub token : ℕ
  pub amount : ℕ
  pub event_index_in_tx : ℕ
  pub finalizable : Bool

pub record L2BlockRow : Type 0 where
  pub l2_block_number : ℕ
  pub commit_l1_block_number : Option ℕ
  pub verify_l1_block_number : Option ℕ
  pub execute_l1_block_number : Option ℕ

pub record FinalizationRow : Type 0 where
  pub withdrawal_id : ℕ
  pub l2_block_number : ℕ
  pub l1_batch_number : ℕ
  pub l2_message_index : ℕ
  pub l2_tx_number_in_block : ℕ
  pub message : List ℕ
  pub sender : ℕ
  pub proof : List ℕ
  pub finalization_tx : Option ℕ
  pub failed_finalization_attempts : ℕ
  pub last_finalization_attempt : Option ℕ

pub record TokenRow : Type 0 where
  pub l1_token_address : ℕ
  pub l2_token_address : ℕ
  pub name : String
  pub symbol : String
  pub decimals : ℕ
  pub l2_block_number : ℕ
  pub initialization_transaction : ℕ

pub record L2ToL1EventRow : Type 0 where
  pub l1_token_addr : ℕ
  pub to_address : ℕ
  pub amount : ℕ
  pub l1_block_number : ℕ
  pub l2_block_number : ℕ
  pub tx_number_in_block : ℕ

-- `next_id` is the sequence behind `withdrawals.id`.
pub record Db : Type 0 where
  pub withdrawals : List WithdrawalRow
  pub next_id : ℕ
  pub l2_blocks : List L2BlockRow
  pub finalization_data : List FinalizationRow
  pub tokens : List TokenRow
  pub l2_to_l1_events : List L2ToL1EventRow

-- The tables after the migrations. A BIGSERIAL counts from 1.
abbrev pub empty : Db
empty = record {
  withdrawals = [];
  next_id = 1;
  l2_blocks = [];
  finalization_data = [];
  tokens = [];
  l2_to_l1_events = [];
}

-- What a statement may fail with by itself: a constraint, or a value that its column cannot hold.
pub data StorageError : Type 0 where
  foreign_key_violation numeric_value_out_of_range : StorageError

-- MAX over the rows; NULL of no rows.
abbrev pub max_of : List ℕ → Option ℕ
max_of [] = none
max_of (n ∷ ns) = elim (max_of ns) [ none ↦ some n | some m ↦ some (if ltb n m then m else n) ]
