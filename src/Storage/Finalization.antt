-- ===== src/Storage/Finalization.antt =====
-- storage/src/lib.rs: the statements over `finalization_data`.
pub mod Inserts
pub mod Progress
use zksync_withdrawal_finali.Common.{
  ℕ, ◌+◌, ◌^◌, Bool, ◌&&◌, none, some, List, [], ◌∷◌, ◌++◌, map, any, leb, not, ◌==◌, if◌then◌else◌,
  Outcome, ok, err,
}
use zksync_withdrawal_finali.Client.{WithdrawalParams, WithdrawalKey}
use zksync_withdrawal_finali.Storage.Tables.{
  Db, WithdrawalRow, FinalizationRow, StorageError, foreign_key_violation,
  numeric_value_out_of_range,
}
use zksync_withdrawal_finali.Storage.Withdrawals.{at_key}

abbrev pub data_row : WithdrawalParams → FinalizationRow
data_row d = record {
  withdrawal_id = d.id;
  l2_block_number = d.l2_block_number;
  l1_batch_number = d.l1_batch_number;
  l2_message_index = d.l2_message_index;
  l2_tx_number_in_block = d.l2_tx_number_in_block;
  message = d.message;
  sender = d.sender;
  proof = d.proof;
  finalization_tx = none;
  failed_finalization_attempts = 0;
  last_finalization_attempt = none;
}

abbrev pub has_data : List FinalizationRow → WithdrawalParams → Bool
has_data rows d = any (λ r. r.withdrawal_id == d.id) rows

-- INSERT … ON CONFLICT (withdrawal_id) DO NOTHING, row by row.
unfoldable pub add_data_rows : List WithdrawalParams → List FinalizationRow → List FinalizationRow
add_data_rows [] rows = rows
add_data_rows (d ∷ ds) rows =
    add_data_rows ds (if has_data rows d then rows else rows ++ data_row d ∷ [])

-- One statement: it inserts every row, or fails and inserts none. The column of
-- `l2_tx_number_in_block` is a SMALLINT, and an inserted `withdrawal_id` references
-- `withdrawals (id)`.
unfoldable pub add_withdrawals_data : Db → List WithdrawalParams → Outcome StorageError Db
unfolding add_data_rows
add_withdrawals_data db wd =
    if any (λ d. leb (2 ^ 15) d.l2_tx_number_in_block) wd
    then err numeric_value_out_of_range
    else if any
        (λ d. not (has_data db.finalization_data d) && not (any (λ w. w.id == d.id) db.withdrawals))
        wd
    then err foreign_key_violation
    else ok (record db { finalization_data = add_data_rows wd db.finalization_data })

-- The id is that of a withdrawal with one of the keys.
abbrev pub is_named : List WithdrawalRow → List WithdrawalKey → ℕ → Bool
is_named ws keys id = any (λ k. any (λ w. at_key k w && w.id == id) ws) keys

-- UPDATE … FROM: a row that several keys name is updated once.
abbrev pub update_named : Db → List WithdrawalKey → (FinalizationRow → FinalizationRow) → Db
update_named db keys update = record db {
  finalization_data =
      map (λ row. if is_named db.withdrawals keys row.withdrawal_id then update row else row)
        db.finalization_data;
}

unfoldable pub finalization_data_set_finalized_in_tx : Db → List WithdrawalKey → ℕ → Db
finalization_data_set_finalized_in_tx db withdrawals tx_hash =
    update_named db withdrawals (λ row. record row { finalization_tx = some tx_hash })

-- `now` is the time of the statement.
unfoldable pub inc_unsuccessful_finalization_attempts : Db → ℕ → List WithdrawalKey → Db
inc_unsuccessful_finalization_attempts db now withdrawals = update_named db withdrawals λ row.
    record row {
      last_finalization_attempt = some now;
      failed_finalization_attempts = row.failed_finalization_attempts + 1;
    }
