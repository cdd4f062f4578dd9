-- ===== src/Storage/Wipes.antt =====
-- storage/src/lib.rs: the deletion of the tables' content, in batches.
pub mod Empties
use zksync_withdrawal_finali.Common.{
  ℕ, zero, suc, Bool, true, false, not, ◌&&◌, List, [], ◌∷◌, map, filter, take, any, contains,
  Outcome, ok, err, panic, ◌>>=◌, ◌==◌, if◌then◌else◌,
}
use zksync_withdrawal_finali.Storage.Tables.{
  Db, WithdrawalRow, L2BlockRow, FinalizationRow, L2ToL1EventRow, StorageError,
  foreign_key_violation,
}
use zksync_withdrawal_finali.Storage.Withdrawals.{Scan}

-- The scan orders of the tables.
pub record Scans : Type 0 where
  pub withdrawals : Scan WithdrawalRow
  pub l2_blocks : Scan L2BlockRow
  pub finalization_data : Scan FinalizationRow
  pub l2_to_l1_events : Scan L2ToL1EventRow

abbrev pub has_rows {ℓ} : {A : Type ℓ} → List A → Bool
has_rows [] = false
has_rows (row ∷ rows) = true

module _ {A : Type 0} (key_of : A → ℕ) (scan : Scan A) (delete_batch_size : ℕ) where
  -- WHERE key IN (SELECT key FROM the table LIMIT delete_batch_size)
  abbrev pub is_chosen : List A → A → Bool
  is_chosen rows row =
      contains (key_of row) (map key_of (take delete_batch_size (scan.arrange rows)))

  -- The loop, over the statement's own error test; what is left when no row was deleted. Without
  -- fuel it panics.
  unfoldable pub wipe : (List A → Bool) → ℕ → List A → Outcome StorageError (List A)
  wipe violates zero rows = panic
  wipe violates (suc fuel) rows =
      let deleted = filter (is_chosen rows) rows in
      let rest = wipe violates fuel (filter (λ r. not (is_chosen rows r)) rows) in
      if violates deleted
      then err foreign_key_violation
      else if has_rows deleted
      then rest
      else ok rows

module _ (scans : Scans) (delete_batch_size fuel : ℕ) where
  unfoldable pub wipe_finalization_data : Db → Outcome StorageError Db
  unfolding wipe
  wipe_finalization_data db =
      wipe (λ r. r.withdrawal_id) scans.finalization_data delete_batch_size (λ d. false) fuel
        db.finalization_data
      >>= λ rows. ok (record db { finalization_data = rows })

  unfoldable pub wipe_l2_blocks : Db → Outcome StorageError Db
  unfolding wipe
  wipe_l2_blocks db =
      wipe (λ r. r.l2_block_number) scans.l2_blocks delete_batch_size (λ d. false) fuel db.l2_blocks
      >>= λ rows. ok (record db { l2_blocks = rows })

  unfoldable pub wipe_l2_to_l1_events : Db → Outcome StorageError Db
  unfolding wipe
  wipe_l2_to_l1_events db =
      wipe (λ r. r.l1_block_number) scans.l2_to_l1_events delete_batch_size (λ d. false) fuel
        db.l2_to_l1_events
      >>= λ rows. ok (record db { l2_to_l1_events = rows })

  unfoldable pub wipe_tokens : Db → Outcome StorageError Db
  wipe_tokens db = ok (record db { tokens = [] })

  -- A withdrawal that finalization data references cannot be deleted.
  abbrev pub is_referenced : Db → List WithdrawalRow → Bool
  is_referenced db = any (λ w. any (λ f. f.withdrawal_id == w.id) db.finalization_data)

  unfoldable pub wipe_withdrawals : Db → Outcome StorageError Db
  unfolding wipe
  wipe_withdrawals db =
      wipe (λ r. r.id) scans.withdrawals delete_batch_size (is_referenced db) fuel db.withdrawals
      >>= λ rows. ok (record db { withdrawals = rows })

  unfoldable pub delete_db_content : Db → Outcome StorageError Db
  delete_db_content db = do
    a ← wipe_finalization_data db
    b ← wipe_l2_blocks a
    c ← wipe_l2_to_l1_events b
    d ← wipe_tokens c
    wipe_withdrawals d

  unfoldable pub delete_finalization_data_content : Db → Outcome StorageError Db
  delete_finalization_data_content db = wipe_finalization_data db
