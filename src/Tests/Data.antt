-- ===== src/Tests/Data.antt =====
-- A database with a committed, executed block, one withdrawal of ETH and one of a token.
use zksync_withdrawal_finali.Common.{none, some, [], ◌∷◌, true}
use mathlib.Core.List.Perm
use zksync_withdrawal_finali.Client.{WithdrawalKey, WithdrawalParams, eth_token_address}
use zksync_withdrawal_finali.Storage.Tables.{Db, WithdrawalRow, FinalizationRow, L2BlockRow}
use zksync_withdrawal_finali.Storage.Withdrawals.{Scan}

abbrev pub as_stored : {A : Type 0} → Scan A
as_stored = record { arrange = λ rows. rows; arrange_perm = λ rows. Perm.rfl }

abbrev pub eth_row : WithdrawalRow
eth_row = record {
  id = 2;
  tx_hash = 77;
  l2_block_number = 5;
  token = eth_token_address;
  amount = 100;
  event_index_in_tx = 0;
  finalizable = true;
}

abbrev pub token_row : WithdrawalRow
token_row = record {
  id = 3;
  tx_hash = 77;
  l2_block_number = 5;
  token = 9;
  amount = 1;
  event_index_in_tx = 1;
  finalizable = true;
}

abbrev pub eth_params : WithdrawalParams
eth_params = record {
  tx_hash = 77;
  event_index_in_tx = 0;
  id = 2;
  l2_block_number = 5;
  l1_batch_number = 4;
  l2_message_index = 6;
  l2_tx_number_in_block = 1;
  message = 1 ∷ [];
  sender = 0;
  proof = 2 ∷ 3 ∷ [];
}

abbrev pub token_params : WithdrawalParams
token_params = record eth_params { event_index_in_tx = 1; id = 3; l2_message_index = 7; sender = 9 }

abbrev pub data_of_params : WithdrawalParams → FinalizationRow
data_of_params w = record {
  withdrawal_id = w.id;
  l2_block_number = w.l2_block_number;
  l1_batch_number = w.l1_batch_number;
  l2_message_index = w.l2_message_index;
  l2_tx_number_in_block = w.l2_tx_number_in_block;
  message = w.message;
  sender = w.sender;
  proof = w.proof;
  finalization_tx = none;
  failed_finalization_attempts = 1;
  last_finalization_attempt = some 100;
}

abbrev pub block_5 : L2BlockRow
block_5 = record {
  l2_block_number = 5;
  commit_l1_block_number = some 10;
  verify_l1_block_number = some 11;
  execute_l1_block_number = some 12;
}

abbrev pub sample : Db
sample = record {
  withdrawals = eth_row ∷ token_row ∷ [];
  next_id = 4;
  l2_blocks = block_5 ∷ [];
  finalization_data = data_of_params eth_params ∷ data_of_params token_params ∷ [];
  tokens = [];
  l2_to_l1_events = [];
}

abbrev pub eth_key : WithdrawalKey
eth_key = record { tx_hash = 77; event_index_in_tx = 0 }

abbrev pub without_data : Db
without_data = record sample { finalization_data = [] }
