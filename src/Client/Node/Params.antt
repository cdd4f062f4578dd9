-- ===== src/Client/Node/Params.antt =====
-- client/src/lib.rs: `finalize_withdrawal_params`.
use zksync_withdrawal_finali.Common.{ℕ, ◌%◌, ◌^◌, Option, none, some, ◌==◌, expect}
use zksync_withdrawal_finali.Common.Actions.{pure, lift, ◌>>=◌, ◌>>◌}
use zksync_withdrawal_finali.Client.{WithdrawalParams}
use zksync_withdrawal_finali.Client.Errors.{
  withdrawal_log_not_found, withdrawal_initiated_filter_not_found, l2_to_l1_with_value_not_found,
  l1_message_sent_not_found,
}
use zksync_withdrawal_finali.Client.Types.{Log, raw_log, TransactionReceipt}
use zksync_withdrawal_finali.Client.Node.{
  WithdrawalEvents, Abi, Env, M, call, cached, insert, ok_or, nth, nth_where, keep_some, position,
  bridge_burn, withdrawal, zks_get_transaction_receipt, get_log_proof,
}
use zksync_withdrawal_finali.Client.Node.Messages.{
  get_l1_bridge_burn_message_keccak, get_l1_withdraw_message_keccak, is_withdrawal_log,
  is_message_log, second_topic, as_message, as_u16,
}

module _ (abi : Abi) (env : Env) where
  abbrev pub ask_l1_address : ℕ → M ℕ
  ask_l1_address token = do
    answer ← call (λ n. env.l1_address n token)
    l1_address ← lift (abi.decode_address answer)
    insert token l1_address
    pure l1_address

  abbrev pub if_not_cached : ℕ → Option ℕ → M ℕ
  if_not_cached token (some l1_address) = pure l1_address
  if_not_cached token none = ask_l1_address token

  unfoldable pub l1_address_of : ℕ → M ℕ
  l1_address_of token = do hit ← cached token; if_not_cached token hit

  -- The hash of the message that the withdrawal has sent.
  unfoldable pub l2_to_l1_message_hash : ℕ → ℕ → TransactionReceipt → Log → WithdrawalEvents → M ℕ
  l2_to_l1_message_hash withdrawal_hash index receipt withdrawal_log (bridge_burn b) = do
    l1_address ← l1_address_of withdrawal_log.address
    withdrawal_initiated_event ← lift (
        ok_or (withdrawal_initiated_filter_not_found withdrawal_hash index) (
          nth index
            (keep_some (λ log. abi.decode_withdrawal_initiated (raw_log log)) receipt.logs)))
    lift (
        get_l1_bridge_burn_message_keccak abi b.amount withdrawal_initiated_event.l_1_receiver
          l1_address)
  l2_to_l1_message_hash withdrawal_hash index receipt withdrawal_log (withdrawal w) =
      lift (get_l1_withdraw_message_keccak abi w)

  -- What is asked and read once the log from L2 to L1 is known.
  unfoldable pub message_params : ℕ → ℕ → TransactionReceipt → ℕ → M (Option WithdrawalParams)
  message_params withdrawal_hash index receipt l2_to_l1_log_index = do
    sent ← lift (nth_where (is_message_log abi) index receipt.logs)
    log ← lift (ok_or (l1_message_sent_not_found withdrawal_hash index) sent)
    sender ← lift (expect (second_topic log))
    answer ← get_log_proof env withdrawal_hash (some l2_to_l1_log_index)
    proof ← lift (expect answer)
    message ← lift (as_message (abi.decode_bytes log.data_bytes))
    l2_block_number ← lift (expect log.block_number)
    l1_batch_number ← lift (expect log.l1_batch_number)
    l1_batch_tx_id ← lift (expect receipt.l1_batch_tx_index)
    l2_tx_number_in_block ← lift (as_u16 l1_batch_tx_id)
    pure (
        some (record {
          tx_hash = withdrawal_hash;
          event_index_in_tx = index % 2 ^ 32;
          id = 0;
          l2_block_number = l2_block_number;
          l1_batch_number = l1_batch_number;
          l2_message_index = proof.id;
          l2_tx_number_in_block = l2_tx_number_in_block;
          message = message;
          sender = sender;
          proof = proof.proof;
        }))

  unfoldable pub finalize_withdrawal_params : ℕ → ℕ → M (Option WithdrawalParams)
  finalize_withdrawal_params withdrawal_hash index = do
    receipt ← zks_get_transaction_receipt env withdrawal_hash
    found ← lift (nth_where (is_withdrawal_log abi) index receipt.logs)
    withdrawal_log ← lift (ok_or (withdrawal_log_not_found index withdrawal_hash) found)
    withdrawal_event ← lift (abi.decode_withdrawal_events (raw_log withdrawal_log))
    message_hash ←
        l2_to_l1_message_hash withdrawal_hash index receipt withdrawal_log withdrawal_event
    l2_to_l1_log_index ← lift (
        ok_or (l2_to_l1_with_value_not_found withdrawal_hash message_hash)
          (position (λ l. l.value == message_hash) receipt.l2_to_l1_logs))
    message_params withdrawal_hash index receipt l2_to_l1_log_index
