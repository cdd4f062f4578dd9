-- ===== src/Finalizer/Recorded.antt =====
-- finalizer/src/lib.rs: what a mined batch leaves in the tables.
use mathlib.Core.List.{Mem, mem-map_of_mem}
use zksync_withdrawal_finali.Common.{
  ℕ, suc, ◌≡◌, ◌≢◌, refl, false, Option, some, List, ◌∷◌, map, ok, ◌==◌, ==_iff, Bool-cases, inl,
  inr,
}
use zksync_withdrawal_finali.Client.{WithdrawalParams, key}
use zksync_withdrawal_finali.TxSender.{TransactionReceipt, send_tx_adjust_gas}
use zksync_withdrawal_finali.Storage.Withdrawals.{Scan}
use zksync_withdrawal_finali.Storage.Finalization.{finalization_data_set_finalized_in_tx}
use zksync_withdrawal_finali.Storage.Selection.{
  Joined, withdrawals_to_finalize, withdrawals_to_finalize_with_whitelist,
  withdrawals_to_finalize_with_blacklist,
}
use zksync_withdrawal_finali.Storage.Selection.Exclusion.{finalized-not-returned}
use zksync_withdrawal_finali.Finalizer.World.{Config, Env, State}
use zksync_withdrawal_finali.Finalizer.Monad.{pure, lift, ◌>>=◌, act, call, statement}
use zksync_withdrawal_finali.Finalizer.Batch.{requests, after_submission, on_mined, finalize_batch}

module _ (config : Config) (env : Env) where
  on_mined-db :
      (ws : List WithdrawalParams) (tx : TransactionReceipt) (s : State)
      → env.connection_fails s.calls ≡ false
      → (on_mined config env ws tx s).1.db
        ≡ finalization_data_set_finalized_in_tx
            (env.others s.calls s.db)
            (map key ws)
            tx.transaction_hash
  unfolding ◌>>=◌ statement act pure
  on_mined-db ws tx s up = elim (Bool-cases config.meters) [
    | inl e ↦ rw (up, e) refl
    | inr e ↦ rw (up, e) refl
  ]

  after_submission-db :
      (ws : List WithdrawalParams) (tx : TransactionReceipt) (status : ℕ) (s : State)
      → tx.status ≡ some status
      → status ≢ 0
      → env.connection_fails s.calls ≡ false
      → (after_submission config env ws (ok (some tx)) s).1.db
        ≡ finalization_data_set_finalized_in_tx
            (env.others s.calls s.db)
            (map key ws)
            tx.transaction_hash
  unfolding after_submission ◌>>=◌ lift
  after_submission-db ws tx status s h nonzero up = elim (Bool-cases (status == 0)) [
    | inl e ↦ absurd (nonzero ((==_iff status 0).0 e))
    | inr e ↦ rw (h, e) (on_mined-db ws tx s up)
  ]

  finalize_batch-db :
      (w : WithdrawalParams) (ws : List WithdrawalParams) (tx : TransactionReceipt)
      (nonce status : ℕ) (s : State)
      → env.get_transaction_count s.calls ≡ ok nonce
      → (send_tx_adjust_gas
          (env.provider (suc s.calls))
          (env.finalize_withdrawals (requests config (w ∷ ws)))
          nonce
          config.batch_finalization_gas_limit).0
        ≡ ok (some tx)
      → tx.status ≡ some status
      → status ≢ 0
      → env.connection_fails (suc (suc s.calls)) ≡ false
      → (finalize_batch config env (w ∷ ws) s).1.db
        ≡ finalization_data_set_finalized_in_tx
            (env.others (suc (suc s.calls)) s.db)
            (map key (w ∷ ws))
            tx.transaction_hash
  unfolding finalize_batch ◌>>=◌ call act
  finalize_batch-db w ws tx nonce status s counted sent h nonzero up =
      rw (counted, sent) (after_submission-db (w ∷ ws) tx status _ h nonzero up)

-- If the account's nonce is known, the transaction with the requests of a batch is mined with a
-- status that is not zero, and the connection to the database holds at the statement after that,
-- then in the tables that `finalize_batch` leaves none of the three selecting queries returns a
-- withdrawal of the batch, whatever the limits, the time, the token lists, the threshold and the
-- other tasks.
pub finalize_batch-not-returned :
    (config : Config) (env : Env) (w : WithdrawalParams) (ws : List WithdrawalParams)
    (tx : TransactionReceipt) (nonce status : ℕ) (s : State) (scan : Scan Joined) (now limit_by : ℕ)
    (tokens : List ℕ) (threshold : Option ℕ) (v : WithdrawalParams)
    → env.get_transaction_count s.calls ≡ ok nonce
    → (send_tx_adjust_gas
        (env.provider (suc s.calls))
        (env.finalize_withdrawals (requests config (w ∷ ws)))
        nonce
        config.batch_finalization_gas_limit).0
      ≡ ok (some tx)
    → tx.status ≡ some status
    → status ≢ 0
    → env.connection_fails (suc (suc s.calls)) ≡ false
    → Mem v (w ∷ ws)
    → let db' = (finalize_batch config env (w ∷ ws) s).1.db in
      (¬ Mem v (withdrawals_to_finalize scan db' now limit_by threshold))
      × (¬ Mem v (withdrawals_to_finalize_with_whitelist scan db' limit_by tokens threshold))
      × (¬ Mem v (withdrawals_to_finalize_with_blacklist scan db' limit_by tokens threshold))
finalize_batch-not-returned config env w ws tx nonce status s scan now limit_by tokens threshold v
      counted sent h nonzero up m =
    rw (finalize_batch-db config env w ws tx nonce status s counted sent h nonzero up) (
      finalized-not-returned scan (env.others (suc (suc s.calls)) s.db) (map key (w ∷ ws))
        tx.transaction_hash now limit_by tokens threshold v (mem-map_of_mem key m))
