-- ===== src/Finalizer/Batch.antt =====
-- finalizer/src/lib.rs: the prediction for a batch, and its finalization.
use text.Mathlib.Text.{starts_with}
use zksync_withdrawal_finali.Common.{
  ℕ, Bool, false, not, ◌&&◌, ◌||◌, none, some, List, [], ◌∷◌, map, filter, ltb, ◌==◌, if◌then◌else◌,
  ok, err, panic, expect,
}
use zksync_withdrawal_finali.Common.Int.{negsuc, eq_ℤ}
use zksync_withdrawal_finali.Client.{
  WithdrawalKey, WithdrawalParams, RequestFinalizeWithdrawal, FinalizeResult, key,
  into_request_with_gaslimit,
}
use zksync_withdrawal_finali.TxSender.{
  MiddlewareError, TransactionReceipt, Receipt, send_tx_adjust_gas,
}
use zksync_withdrawal_finali.Storage.Blocks.{is_some}
use zksync_withdrawal_finali.Storage.Finalization.{
  finalization_data_set_finalized_in_tx, inc_unsuccessful_finalization_attempts,
}
use zksync_withdrawal_finali.Finalizer.World.{
  Config, Env, withdrawal_transaction_reverted, predicted, submitted, recorded_finalized,
  recorded_failed, metered, slept, out_of_funds_backoff,
}
use zksync_withdrawal_finali.Finalizer.Monad.{M, pure, lift, ◌>>=◌, ◌>>◌, act, call, statement}

-- The error of a node that finds the account too poor: its code is -32000.
unfoldable pub is_gas_required_exceeds_allowance : MiddlewareError → Bool
is_gas_required_exceeds_allowance e = elim e.as_error_response [
  | none ↦ false
  | some r ↦ eq_ℤ r.code (negsuc 31999) && starts_with r.message "gas required exceeds allowance "
]

abbrev pub record_finalized : Env → List WithdrawalKey → ℕ → M (Unit {0})
record_finalized env keys tx = do
  statement env (λ now db. (tt, finalization_data_set_finalized_in_tx db keys tx))
  act (recorded_finalized keys tx)

abbrev pub record_failed : Env → List WithdrawalKey → M (Unit {0})
record_failed env keys = do
  statement env (λ now db. (tt, inc_unsuccessful_finalization_attempts db now keys))
  act (recorded_failed keys)

module _ (config : Config) where
  abbrev pub requests : List WithdrawalParams → List RequestFinalizeWithdrawal
  requests = map (λ r. into_request_with_gaslimit r config.one_withdrawal_gas_limit)

  abbrev pub is_predicted_to_fail : FinalizeResult → Bool
  is_predicted_to_fail p = not p.success || ltb config.one_withdrawal_gas_limit p.gas

module _ (config : Config) (env : Env) where
  -- The call is simulated on the chain; the results of the requests that fail come back.
  unfoldable pub predict_fails : List WithdrawalParams → M (List FinalizeResult)
  predict_fails withdrawals = do
    results ← call (λ n. env.call_finalize_withdrawals n (requests config withdrawals))
    let failing = filter (is_predicted_to_fail config) results
    act (predicted withdrawals failing)
    pure failing

  -- A successful transaction; a meter's own errors are only logged.
  abbrev pub on_mined : List WithdrawalParams → TransactionReceipt → M (Unit {0})
  on_mined withdrawals tx = do
    record_finalized env (map key withdrawals) tx.transaction_hash
    if config.meters then act (metered (map (λ w. w.id) withdrawals)) else pure tt

  abbrev pub on_receipt : List WithdrawalParams → TransactionReceipt → ℕ → M (Unit {0})
  on_receipt withdrawals tx status =
      if status == 0
      then (do record_failed env (map key withdrawals); lift (err withdrawal_transaction_reverted))
      else on_mined withdrawals tx

  abbrev pub on_error : List WithdrawalParams → MiddlewareError → M (Unit {0})
  on_error withdrawals e =
      if is_some e.as_provider_error
      then pure tt
      else if is_gas_required_exceeds_allowance e
      then act (slept out_of_funds_backoff)
      else record_failed env (map key withdrawals)

  unfoldable pub after_submission : List WithdrawalParams → Receipt → M (Unit {0})
  after_submission withdrawals (ok (some tx)) = do
    status ← lift (expect tx.status)
    on_receipt withdrawals tx status
  after_submission withdrawals (ok none) = pure tt
  after_submission withdrawals (err e) = on_error withdrawals e
  after_submission withdrawals panic = lift panic

  unfoldable pub finalize_batch : List WithdrawalParams → M (Unit {0})
  unfolding after_submission
  finalize_batch [] = pure tt
  finalize_batch (w ∷ ws) = do
    nonce ← call env.get_transaction_count
    sent ← call (λ n.
        ok
          (send_tx_adjust_gas (env.provider n) (env.finalize_withdrawals (requests config (w ∷ ws)))
            nonce config.batch_finalization_gas_limit).0)
    act (submitted (w ∷ ws) sent)
    after_submission (w ∷ ws) sent
