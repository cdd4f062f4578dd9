-- ===== src/Finalizer/Tables/Batches.antt =====
-- finalizer/src/lib.rs: `finalize_batch` keeps the tables reached.
use zksync_withdrawal_finali.Common.{
  ℕ, ◌≡◌, ap, ◌∙◌, false, none, some, List, [], ◌∷◌, map, ok, err, panic, expect-ok, ◌==◌, ==_iff,
}
use zksync_withdrawal_finali.Client.{WithdrawalParams, key}
use zksync_withdrawal_finali.TxSender.{MiddlewareError, TransactionReceipt, Receipt}
use zksync_withdrawal_finali.Storage.Tables.{Db}
use zksync_withdrawal_finali.Storage.Blocks.{is_some}
use zksync_withdrawal_finali.Finalizer.World.{Config, Env}
use zksync_withdrawal_finali.Finalizer.Batch.{
  after_submission, on_receipt, on_mined, on_error, finalize_batch,
  is_gas_required_exceeds_allowance,
}
use zksync_withdrawal_finali.Finalizer.Tables
use zksync_withdrawal_finali.Finalizer.Tables.{IsReady, IsSent}
use zksync_withdrawal_finali.Finalizer.Tables.Keeping.{
  Any, Keeps, Keeps-bind, Keeps-pure, Keeps-lift, Keeps-if, Keeps-call, Keeps-act,
  Keeps-record_finalized, Keeps-record_failed,
}

module _ (config : Config) (env : Env) (start : Db) where
  module _ (w : WithdrawalParams) (ws : List WithdrawalParams)
      (is_ready : IsReady config env (w ∷ ws)) where
    on_mined-Keeps :
        (tx : TransactionReceipt) (status : ℕ)
        → IsSent config env (w ∷ ws) (ok (some tx))
        → tx.status ≡ some status
        → (status == 0) ≡ false
        → Keeps config env start (on_mined config env (w ∷ ws) tx) Any
    on_mined-Keeps tx status sent h nonzero =
        Keeps-bind config env start {F = Any} _ _
          (Keeps-record_finalized config env start (map key (w ∷ ws)) tx.transaction_hash
            (Tables.mined w ws tx status is_ready sent h (λ z. cc)))
          (λ r t.
            Keeps-if config env start config.meters _ _ (λ b. Keeps-act config env start _)
              (λ b. Keeps-pure config env start tt tt))

    on_receipt-Keeps :
        (tx : TransactionReceipt) (status : ℕ)
        → IsSent config env (w ∷ ws) (ok (some tx))
        → tx.status ≡ some status
        → Keeps config env start (on_receipt config env (w ∷ ws) tx status) Any
    on_receipt-Keeps tx status sent h =
        Keeps-if config env start (status == 0) _ _
          (λ zero_status.
            Keeps-bind config env start {F = Any} _ _
              (Keeps-record_failed config env start (map key (w ∷ ws)) (
                Tables.reverted w ws tx is_ready sent
                  (h ∙ ap some ((==_iff status 0).0 zero_status))))
              (λ r t. Keeps-lift config env start _ (λ a e. tt)))
          (on_mined-Keeps tx status sent h)

    on_error-Keeps :
        (e : MiddlewareError)
        → IsSent config env (w ∷ ws) (err e)
        → Keeps config env start (on_error config env (w ∷ ws) e) Any
    on_error-Keeps e sent =
        Keeps-if config env start (is_some e.as_provider_error) _ _
          (λ h. Keeps-pure config env start tt tt)
          (λ not_provider.
            Keeps-if config env start (is_gas_required_exceeds_allowance e) _ _
              (λ h. Keeps-act config env start _)
              (λ funded.
                Keeps-record_failed config env start (map key (w ∷ ws))
                  (Tables.refused w ws e is_ready sent not_provider funded)))

    after_submission-Keeps :
        (r : Receipt)
        → IsSent config env (w ∷ ws) r
        → Keeps config env start (after_submission config env (w ∷ ws) r) Any
    unfolding after_submission
    after_submission-Keeps (ok (some tx)) sent =
        Keeps-bind config env start {F = λ status. tx.status ≡ some status} _ _
          (Keeps-lift config env start _ (λ status e. expect-ok tx.status status e))
          (λ status h. on_receipt-Keeps tx status sent h)
    after_submission-Keeps (ok none) sent = Keeps-pure config env start tt tt
    after_submission-Keeps (err e) sent = on_error-Keeps e sent
    after_submission-Keeps panic sent = Keeps-lift config env start panic (λ a e. tt)

  -- A batch that may be finalized leads to reached tables, however its transaction ends.
  pub finalize_batch-Keeps :
      (ws : List WithdrawalParams)
      → IsReady config env ws
      → Keeps config env start (finalize_batch config env ws) Any
  unfolding finalize_batch
  finalize_batch-Keeps [] is_ready = Keeps-pure config env start tt tt
  finalize_batch-Keeps (w ∷ ws) is_ready =
      Keeps-bind config env start {F = λ nonce. (n : ℕ) × (env.get_transaction_count n ≡ ok nonce)}
        _ _ (Keeps-call config env start env.get_transaction_count (λ n a e. (n, e)))
        (λ nonce counted.
          Keeps-bind config env start {F = IsSent config env (w ∷ ws)} _ _
            (Keeps-call config env start _ (λ m r e. (counted.0, nonce, m, counted.1, cc)))
            (λ sent is_sent.
              Keeps-bind config env start {F = Any} _ _ (Keeps-act config env start _)
                (λ r t. after_submission-Keeps w ws is_ready sent is_sent)))
