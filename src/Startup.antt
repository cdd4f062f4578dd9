-- ===== src/Startup.antt =====
-- bin/withdrawal-finalizer/src/main.rs: the blocks from which the events of the two chains are read.
pub mod Resume
use zksync_withdrawal_finali.Common.{
  ℕ, ◌+◌, ◌-◌, ◌%◌, Bool, true, false, Option, none, some, Outcome, ok, err, ◌>>=◌, expect, min,
  u64_mod,
}
use zksync_withdrawal_finali.Storage.Tables.{Db}
use zksync_withdrawal_finali.Storage.Blocks.{last_l1_block_seen}
use zksync_withdrawal_finali.Storage.Events.{last_l2_to_l1_events_block_seen}
use zksync_withdrawal_finali.Storage.Withdrawals.{last_l2_block_seen}

-- `anyhow` keeps any error: of the database or of a node.
pub data Error : Type 0 where
  database_failed node_failed : Error

-- The answers of the nodes: the hash of the transaction that committed L2 block 1, the L1 block of
-- a transaction, and the number of L2 block 1. A field that the answer leaves out is `none`.
pub record Nodes : Type 0 where
  pub block_details : Outcome Error (Option (Option ℕ))
  pub transaction : ℕ → Outcome Error (Option (Option ℕ))
  pub first_block : Outcome Error (Option (Option ℕ))

-- `fails` says whether the connection to the database is lost.
abbrev pub ask : {A : Type 0} → Bool → A → Outcome Error A
ask true a = err database_failed
ask false a = ok a

unfoldable pub block_of_first_commit : Nodes → Outcome Error ℕ
block_of_first_commit nodes = do
  answer ← nodes.block_details
  block_details ← expect answer
  commit_tx_hash ← expect block_details
  found ← nodes.transaction commit_tx_hash
  commit_tx ← expect found
  expect commit_tx

abbrev pub earlier_or_first : Nodes → Option ℕ → Option ℕ → Outcome Error ℕ
earlier_or_first nodes (some b1) (some b2) = ok (min b1 b2)
earlier_or_first nodes (some b1) none = block_of_first_commit nodes
earlier_or_first nodes none b2 = block_of_first_commit nodes

unfoldable pub start_from_l1_block : Nodes → Bool → Db → Outcome Error ℕ
start_from_l1_block nodes fails db = do
  b1 ← ask fails (last_l2_to_l1_events_block_seen db)
  b2 ← ask fails (last_l1_block_seen db)
  earlier_or_first nodes b1 b2

unfoldable pub number_of_first_block : Nodes → Outcome Error ℕ
number_of_first_block nodes = do answer ← nodes.first_block; block ← expect answer; expect block

-- `block_number - 1` wraps in a release build.
abbrev pub before_or_first : Nodes → Option ℕ → Outcome Error ℕ
before_or_first nodes (some block_number) = ok ((block_number + (u64_mod - 1)) % u64_mod)
before_or_first nodes none = number_of_first_block nodes

-- The first argument is the block that the configuration gives, if it does.
unfoldable pub start_from_l2_block : Option ℕ → Nodes → Bool → Db → Outcome Error ℕ
start_from_l2_block (some l2_block) nodes fails db = ok l2_block
start_from_l2_block none nodes fails db = do
  seen ← ask fails (last_l2_block_seen db)
  before_or_first nodes seen
