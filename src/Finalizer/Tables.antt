-- ===== src/Finalizer/Tables.antt =====
-- finalizer/src/lib.rs: which updates of the tables the answers from outside call for, and the tables
-- that such updates lead to.
pub mod Keeping
pub mod Batches
pub mod Checks
pub mod Rounds
pub mod Iterations
use mathlib.Core.List.{Mem}
use zksync_withdrawal_finali.Common.{
  ℕ, ◌*◌, ◌<◌, length, ◌≡◌, ◌≢◌, ◌⊎◌, Bool, true, false, some, List, [], ◌∷◌, All, map, filter,
  Outcome, ok, err,
}
use zksync_withdrawal_finali.Client.{WithdrawalKey, WithdrawalParams, FinalizeResult, key, is_eth}
use zksync_withdrawal_finali.TxSender.{
  MiddlewareError, TransactionReceipt, Receipt, send_tx_adjust_gas,
}
use zksync_withdrawal_finali.Storage.Tables.{Db}
use zksync_withdrawal_finali.Storage.Blocks.{is_some}
use zksync_withdrawal_finali.Storage.Finalization.{
  finalization_data_set_finalized_in_tx, inc_unsuccessful_finalization_attempts,
}
use zksync_withdrawal_finali.Accumulator.Unnamed.{IsUnnamed}
use zksync_withdrawal_finali.Finalizer.World.{Config, Env, Error}
use zksync_withdrawal_finali.Finalizer.Batch.{
  is_gas_required_exceeds_allowance, is_predicted_to_fail, requests,
}

module _ (config : Config) (env : Env) where
  -- The contract of the withdrawal's kind answers so to whether it is finalized.
  abbrev pub IsAnswered : WithdrawalParams → Outcome Error Bool → Type 0
  IsAnswered wd answer =
      (n : ℕ) × (((is_eth wd.sender ≡ true)
          × (env.is_eth_withdrawal_finalized n wd.l1_batch_number wd.l2_message_index ≡ answer))
        ⊎ ((is_eth wd.sender ≡ false)
            × (env.is_withdrawal_finalized n wd.l1_batch_number wd.l2_message_index ≡ answer)))

  -- A contract answers for a withdrawal with the key that it is finalized, or that it is not.
  abbrev pub IsReported : Bool → WithdrawalKey → Type 0
  IsReported b k = (wd : WithdrawalParams) × (key wd ≡ k) × IsAnswered wd (ok b)

  -- The withdrawals were in a simulated call, and no result that failed or used too much gas names
  -- one of them.
  abbrev pub IsCleared : List WithdrawalParams → Type 0
  IsCleared ws =
      (asked : List WithdrawalParams) × (results : List FinalizeResult) × (n : ℕ)
      × (env.call_finalize_withdrawals n (requests config asked) ≡ ok results)
      × All (λ w. Mem w asked) ws
      × All (IsUnnamed (filter (is_predicted_to_fail config) results)) ws

  -- The batch is below the gas limit without one of its withdrawals, or has but one.
  abbrev pub IsWithin : List WithdrawalParams → Type 0
  IsWithin [] = Unit
  IsWithin (w ∷ ws) =
      (length ws ≡ 0)
      ⊎ (config.one_withdrawal_gas_limit * length ws < config.batch_finalization_gas_limit)

  -- The transaction with the requests of the batch is sent, under an account's nonce, to this end.
  abbrev pub IsSent : List WithdrawalParams → Receipt → Type 0
  IsSent ws r =
      (n nonce m : ℕ) × (env.get_transaction_count n ≡ ok nonce)
      × ((send_tx_adjust_gas (env.provider m) (env.finalize_withdrawals (requests config ws)) nonce
            config.batch_finalization_gas_limit).0
          ≡ r)

  -- Why a batch may be finalized.
  abbrev pub IsReady : List WithdrawalParams → Type 0
  IsReady ws = IsCleared ws × IsWithin ws

  -- Why the keys may be marked as finalized in a transaction.
  pub data MayFinalize : List WithdrawalKey → ℕ → Type 0 where
    mined :
        (w : WithdrawalParams) (ws : List WithdrawalParams) (tx : TransactionReceipt) (status : ℕ)
        → IsReady (w ∷ ws)
        → IsSent (w ∷ ws) (ok (some tx))
        → tx.status ≡ some status
        → status ≢ 0
        → MayFinalize (map key (w ∷ ws)) tx.transaction_hash
    already : (keys : List WithdrawalKey) → All (IsReported true) keys → MayFinalize keys 0

  -- Why the failed attempts of the keys may be counted.
  pub data MayFail : List WithdrawalKey → Type 0 where
    reverted :
        (w : WithdrawalParams) (ws : List WithdrawalParams) (tx : TransactionReceipt)
        → IsReady (w ∷ ws)
        → IsSent (w ∷ ws) (ok (some tx))
        → tx.status ≡ some 0
        → MayFail (map key (w ∷ ws))
    refused :
        (w : WithdrawalParams) (ws : List WithdrawalParams) (e : MiddlewareError)
        → IsReady (w ∷ ws)
        → IsSent (w ∷ ws) (err e)
        → is_some e.as_provider_error ≡ false
        → is_gas_required_exceeds_allowance e ≡ false
        → MayFail (map key (w ∷ ws))
    not_finalized : (keys : List WithdrawalKey) → All (IsReported false) keys → MayFail keys

  -- The tables that the other tasks and justified updates lead to.
  pub data Reaches (start : Db) : Db → Type 0 where
    unchanged : Reaches start start
    others_act : {db : Db} (n : ℕ) → Reaches start db → Reaches start (env.others n db)
    finalized :
        {db : Db} (keys : List WithdrawalKey) (tx : ℕ)
        → MayFinalize keys tx
        → Reaches start db
        → Reaches start (finalization_data_set_finalized_in_tx db keys tx)
    failed :
        {db : Db} (keys : List WithdrawalKey) (n : ℕ)
        → MayFail keys
        → Reaches start db
        → Reaches start (inc_unsuccessful_finalization_attempts db (env.now n) keys)
