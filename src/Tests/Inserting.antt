-- ===== src/Tests/Inserting.antt =====
-- The inserting and updating statements of storage/src/lib.rs on the sample tables.
use zksync_withdrawal_finali.Common.{
  ◌≡◌, refl, some, List, [], ◌∷◌, arith, any, leb, ◌&&◌, if◌then◌else◌,
}
use zksync_withdrawal_finali.Storage.Tables.{Db}
use zksync_withdrawal_finali.Storage.Blocks.{
  committed_new_batch, verified_new_batch, executed_new_batch,
}
use zksync_withdrawal_finali.Storage.Blocks.Ranges.{
  block_in, row_or_new, block_in-new_batch, commit-execute_comm,
}
use zksync_withdrawal_finali.Storage.Withdrawals.{StoredWithdrawal, add_withdrawals, at_key}
use zksync_withdrawal_finali.Storage.Withdrawals.Rows.{
  IsConsistent, add_withdrawals-IsConsistent, row_at, first_event, row_at-add_withdrawals,
}
use zksync_withdrawal_finali.Storage.Finalization.{add_withdrawals_data, add_data_rows}
use zksync_withdrawal_finali.Storage.Finalization.Inserts.{
  data_of, first_data, or_else, add_withdrawals_data-data_of,
}
use zksync_withdrawal_finali.Tests.Data.{sample, without_data, eth_params, eth_key}

block_in-new_batch_example :
    (block_in 5 (committed_new_batch sample 4 6 20).l2_blocks ≡ (
      if leb 4 5 && leb 5 6
      then some
          (record (row_or_new 5 (block_in 5 sample.l2_blocks)) { commit_l1_block_number = some 20 })
      else block_in 5 sample.l2_blocks))
    × (block_in 5 (verified_new_batch sample 4 6 20).l2_blocks ≡ (
        if leb 4 5 && leb 5 6
        then some (record (row_or_new 5 (block_in 5 sample.l2_blocks)) {
          verify_l1_block_number = some 20;
        })
        else block_in 5 sample.l2_blocks))
    × (block_in 5 (executed_new_batch sample 4 6 20).l2_blocks ≡ (
        if leb 4 5 && leb 5 6
        then some (record (row_or_new 5 (block_in 5 sample.l2_blocks)) {
          execute_l1_block_number = some 20;
        })
        else block_in 5 sample.l2_blocks))
block_in-new_batch_example = block_in-new_batch sample 4 6 20 5

commit-execute_comm_example :
    block_in 5 (executed_new_batch (committed_new_batch sample 5 8 20) 4 6 30).l2_blocks
    ≡ block_in 5 (committed_new_batch (executed_new_batch sample 4 6 30) 5 8 20).l2_blocks
commit-execute_comm_example = commit-execute_comm sample 5 8 20 4 6 30 5

-- One event that is stored already, and a new one.
abbrev events : List StoredWithdrawal
events =
    record {
      event = record { tx_hash = 77; block_number = 5; token = 9; amount = 1 };
      index_in_tx = 1;
    }
    ∷ record {
      event = record { tx_hash = 78; block_number = 6; token = 9; amount = 4 };
      index_in_tx = 0;
    }
    ∷ []

sample-IsConsistent : IsConsistent sample.withdrawals sample.next_id
sample-IsConsistent = record {
  unique = (refl, refl, (refl, refl, tt));
  below = (omega arith, (omega arith, tt));
}

add_withdrawals-IsConsistent_example :
    IsConsistent (add_withdrawals sample events).withdrawals (add_withdrawals sample events).next_id
add_withdrawals-IsConsistent_example =
    add_withdrawals-IsConsistent sample events sample-IsConsistent

row_at-add_withdrawals_example : row_at eth_key (add_withdrawals sample events).withdrawals ≡ (
    if any (at_key eth_key) sample.withdrawals
    then row_at eth_key sample.withdrawals
    else first_event eth_key sample.next_id events)
row_at-add_withdrawals_example = row_at-add_withdrawals sample events eth_key

abbrev with_eth_data : Db
with_eth_data = record sample { finalization_data = add_data_rows (eth_params ∷ []) [] }

add_withdrawals_data-data_of_example :
    (data_of 2 with_eth_data.finalization_data
      ≡ or_else (data_of 2 without_data.finalization_data) (first_data 2 (eth_params ∷ [])))
    × (with_eth_data.withdrawals ≡ without_data.withdrawals)
    × (with_eth_data.l2_blocks ≡ without_data.l2_blocks)
unfolding add_withdrawals_data
add_withdrawals_data-data_of_example =
    add_withdrawals_data-data_of without_data with_eth_data (eth_params ∷ []) 2 refl
