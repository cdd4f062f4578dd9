-- ===== src/Client/Node/Status.antt =====
-- client/src/lib.rs: `is_withdrawal_finalized` and the logs it asks for.
use zksync_withdrawal_finali.Common.{
  ℕ, Bool, false, Option, none, some, filter, ◌==◌, if◌then◌else◌,
}
use zksync_withdrawal_finali.Common.Actions.{pure, lift, ◌>>=◌}
use zksync_withdrawal_finali.Client.{is_eth}
use zksync_withdrawal_finali.Client.Contract.{l1_messenger_address}
use zksync_withdrawal_finali.Client.Types.{L2ToL1LogProof, Log, L2ToL1Log}
use zksync_withdrawal_finali.Client.Node.{
  Abi, Env, M, call, nth, nth_where, zks_get_transaction_receipt, get_log_proof,
}
use zksync_withdrawal_finali.Client.Node.Messages.{is_message_log, with_tx_index}

module _ (abi : Abi) (env : Env) where
  unfoldable pub get_withdrawal_log : ℕ → ℕ → M (Option (Log × Option ℕ))
  get_withdrawal_log tx_hash index = do
    receipt ← zks_get_transaction_receipt env tx_hash
    log ← lift (nth_where (is_message_log abi) index receipt.logs)
    pure (with_tx_index receipt.l1_batch_tx_index log)

  unfoldable pub get_withdrawal_l2_to_l1_log : ℕ → ℕ → M (Option (L2ToL1Log × Option ℕ))
  get_withdrawal_l2_to_l1_log tx_hash index = do
    receipt ← zks_get_transaction_receipt env tx_hash
    pure (
        with_tx_index (some index) (
          nth index (filter (λ entry. entry.sender == l1_messenger_address) receipt.l2_to_l1_logs)))

  abbrev pub ask_l1 : ℕ → ℕ → ℕ → M Bool
  ask_l1 sender l1_batch_number l2_message_index =
      if is_eth sender
      then call (λ n. env.is_eth_withdrawal_finalized n l1_batch_number l2_message_index)
      else call (λ n. env.is_withdrawal_finalized n l1_batch_number l2_message_index)

  abbrev pub if_in_batch : ℕ → L2ToL1LogProof → Option ℕ → M Bool
  if_in_batch sender proof none = pure false
  if_in_batch sender proof (some l1_batch_number) = ask_l1 sender l1_batch_number proof.id

  abbrev pub if_proof : ℕ → Log → Option L2ToL1LogProof → M Bool
  if_proof sender log none = pure false
  if_proof sender log (some proof) = if_in_batch sender proof log.l1_batch_number

  abbrev pub if_l2_to_l1_log : ℕ → ℕ → Log → Option (L2ToL1Log × Option ℕ) → M Bool
  if_l2_to_l1_log withdrawal_hash sender log none = pure false
  if_l2_to_l1_log withdrawal_hash sender log (some (entry, l2_to_l1_log_index)) = do
    proof ← get_log_proof env withdrawal_hash l2_to_l1_log_index
    if_proof sender log proof

  abbrev pub if_log : ℕ → ℕ → ℕ → Option (Log × Option ℕ) → M Bool
  if_log withdrawal_hash index sender none = pure false
  if_log withdrawal_hash index sender (some (log, l1_batch_tx_index)) = do
    entry ← get_withdrawal_l2_to_l1_log withdrawal_hash index
    if_l2_to_l1_log withdrawal_hash sender log entry

  unfoldable pub is_withdrawal_finalized : ℕ → ℕ → ℕ → M Bool
  is_withdrawal_finalized withdrawal_hash index sender = do
    log ← get_withdrawal_log withdrawal_hash index
    if_log withdrawal_hash index sender log
