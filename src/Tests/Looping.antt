-- ===== src/Tests/Looping.antt =====
-- The loop of finalizer/src/lib.rs on the sample tables: the token's withdrawal is predicted to
-- fail, the other is sent and mined.
use zksync_withdrawal_finali.Finalizer.Monad.{◌>>=◌, statement, call, act, lift, pure}
use zksync_withdrawal_finali.Finalizer.Loop.{
  try_finalize_these, process, new_accumulator, rounds, round, drop_failing, append_unsuccessful,
  flush, get_finalized_withdrawals, is_finalized, join_all, process_taken, process_unsuccessful,
  take_unsuccessful,
}
use zksync_withdrawal_finali.Storage.Selection.{
  withdrawals_to_finalize, withdrawals_to_finalize_with_whitelist,
  withdrawals_to_finalize_with_blacklist,
}
use zksync_withdrawal_finali.Storage.Blocks.{last_executed_block}
use zksync_withdrawal_finali.Accumulator.{
  ready_to_finalize, add_withdrawal, new, remove_unsuccessful, take_withdrawals,
}
use zksync_withdrawal_finali.Finalizer.Batch.{predict_fails, finalize_batch, after_submission}
use zksync_withdrawal_finali.Client.{is_eth}
use zksync_withdrawal_finali.TxSender.{send_tx_adjust_gas, send_loop, prepare, bump_predicted_fees}
use zksync_withdrawal_finali.Common.{arith, ◌≡◌, refl, true, false, none, some, [], ◌∷◌, ok, ◌+◌}
use zksync_withdrawal_finali.Common.{Bool-cases, inl, inr, if◌then◌else◌, ◌==◌, err}
use zksync_withdrawal_finali.Common.Actions.Hoare.{Post}
use zksync_withdrawal_finali.Client.Errors.{withdrawal_log_not_found}
use zksync_withdrawal_finali.Finalizer.Params.{request_finalize_params}
use zksync_withdrawal_finali.Finalizer.Params.Requests.{
  AlwaysAnswers, answered, request_finalize_params-answered,
}
use zksync_withdrawal_finali.Client.{key}
use zksync_withdrawal_finali.TxSender.{legacy}
use zksync_withdrawal_finali.Finalizer.World.{
  Config, Env, State, all, predicted, submitted, checked, recorded_finalized, recorded_failed,
  metered,
}
use zksync_withdrawal_finali.Finalizer.Loop.{loop_iteration}
use mathlib.Core.List.{Mem, mem-cons_self, mem-cons_of_mem}
use zksync_withdrawal_finali.Finalizer.Recorded.{finalize_batch-not-returned}
use zksync_withdrawal_finali.Tests.Data.{as_stored, sample, eth_params, token_params}
use zksync_withdrawal_finali.Tests.Sending.{node, mined}

abbrev config : Config
config = record {
  one_withdrawal_gas_limit = 300;
  batch_finalization_gas_limit = 900;
  tx_fee_limit = 1000000;
  token_list = all;
  eth_threshold = some 7;
  meters = true;
}

abbrev env : Env
env = record {
  scan = as_stored;
  scan_withdrawals = as_stored;
  finalize_withdrawal_params = λ n h i. ok none;
  now = λ n. 1000 + n;
  others = λ n db. db;
  connection_fails = λ n. false;
  get_gas_price = λ n. ok 5;
  get_transaction_count = λ n. ok 7;
  call_finalize_withdrawals = λ n requests. ok (
      record { l_2_block_number = 4; l_2_message_index = 6; gas = 200; success = true }
      ∷ record { l_2_block_number = 4; l_2_message_index = 7; gas = 400; success = true }
      ∷ []);
  finalize_withdrawals =
      λ requests. legacy (record { nonce = none; gas = none; gas_price = some 200; payload = [] });
  provider = λ n. node;
  is_eth_withdrawal_finalized = λ n b i. ok false;
  is_withdrawal_finalized = λ n b i. ok false;
}

abbrev start : State
start = record { unsuccessful = []; db = sample; calls = 0; trace = [] }

finalize_batch-not-returned_example :
    let db' = (finalize_batch config env (eth_params ∷ token_params ∷ []) start).1.db in
    (¬ Mem token_params (withdrawals_to_finalize as_stored db' 1000 50 none))
    × (¬ Mem token_params (withdrawals_to_finalize_with_whitelist as_stored db' 50 (9 ∷ []) none))
    × (¬ Mem token_params (withdrawals_to_finalize_with_blacklist as_stored db' 50 (9 ∷ []) none))
unfolding send_tx_adjust_gas send_loop prepare bump_predicted_fees
finalize_batch-not-returned_example =
    finalize_batch-not-returned config env eth_params (token_params ∷ []) mined 7 1 start as_stored
      1000 50 (9 ∷ []) none token_params refl refl refl (omega arith) refl
      (mem-cons_of_mem eth_params mem-cons_self)

-- One iteration.
first_trace :
    (loop_iteration config env start).1.trace
    ≡ recorded_finalized [] 0
      ∷ recorded_failed (key token_params ∷ [])
      ∷ checked []
      ∷ metered (2 ∷ [])
      ∷ recorded_finalized (key eth_params ∷ []) 99
      ∷ submitted (eth_params ∷ []) (ok (some mined))
      ∷ predicted
          (eth_params ∷ token_params ∷ [])
          (record { l_2_block_number = 4; l_2_message_index = 7; gas = 400; success = true } ∷ [])
      ∷ []
unfolding loop_iteration ◌>>=◌ statement call act lift pure try_finalize_these process
    new_accumulator rounds round drop_failing append_unsuccessful flush get_finalized_withdrawals
    is_finalized join_all process_taken process_unsuccessful take_unsuccessful
    withdrawals_to_finalize last_executed_block ready_to_finalize add_withdrawal new
    remove_unsuccessful take_withdrawals predict_fails finalize_batch after_submission is_eth
    send_tx_adjust_gas send_loop prepare bump_predicted_fees
first_trace = refl

-- The first request gets an error, the second one parameters.
abbrev answering : Env
answering = record env {
  connection_fails = λ n. true;
  finalize_withdrawal_params =
      λ n h i. if i == 0 then err (withdrawal_log_not_found 0 h) else ok (some token_params);
}

answering-AlwaysAnswers : AlwaysAnswers answering
answering-AlwaysAnswers n h i = elim (Bool-cases (i == 0)) [
  | inl e ↦ inr (withdrawal_log_not_found 0 h, rw e refl)
  | inr e ↦ inl (token_params, rw e refl)
]

request_finalize_params-answered_example :
    Post
      (λ params u. params ≡ answered answering 0 ((77, 0, 8) ∷ (77, 1, 9) ∷ []))
      (λ u. ⊥)
      (request_finalize_params answering ((77, 0, 8) ∷ (77, 1, 9) ∷ []) start)
request_finalize_params-answered_example =
    request_finalize_params-answered answering answering-AlwaysAnswers
      ((77, 0, 8) ∷ (77, 1, 9) ∷ []) start
