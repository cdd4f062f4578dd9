-- ===== src/Tests/Asking.antt =====
-- client/src/lib.rs on a transaction with two withdrawals of ETH that are alike.
use zksync_withdrawal_finali.Common.{ℕ, ◌≡◌, refl, true, false, some, none, [], ◌∷◌, ◌+◌, ok, panic}
use zksync_withdrawal_finali.Common.Actions.{◌>>=◌, lift, pure}
use zksync_withdrawal_finali.Common.Actions.Hoare.{Post}
use zksync_withdrawal_finali.Client.{WithdrawalParams}
use zksync_withdrawal_finali.Client.Contract.{l1_messenger_address}
use zksync_withdrawal_finali.Client.Types.{Log, L2ToL1Log}
use zksync_withdrawal_finali.Client.Node.{
  Abi, Env, State, withdrawal, bytes, call, nth_where, position, zks_get_transaction_receipt,
  get_log_proof,
}
use zksync_withdrawal_finali.Client.Node.Messages.{withdraw_message}
use zksync_withdrawal_finali.Client.Node.Params.{
  l2_to_l1_message_hash, message_params, finalize_withdrawal_params,
}
use zksync_withdrawal_finali.Client.Node.Origin.{IsOf, finalize_withdrawal_params-IsOf}

abbrev pub generated : Abi
generated = record {
  bridge_burn_signature = 1;
  withdrawal_signature = 2;
  l1_message_sent_signature = 3;
  finalize_withdrawal = 17 ∷ 162 ∷ 204 ∷ 193 ∷ [];
  finalize_eth_withdrawal = 108 ∷ 9 ∷ 96 ∷ 249 ∷ [];
  decode_withdrawal_events = λ log. ok (withdrawal (record { l_1_receiver = 77; amount = 5 }));
  decode_withdrawal_initiated = λ log. none;
  decode_address = λ answer. panic;
  decode_bytes = λ encoded. some (bytes encoded ∷ []);
  encode_u256 = λ n. n ∷ [];
  encode_packed = λ tokens. ok (1 ∷ 2 ∷ []);
  keccak256 = λ message. 900;
}

abbrev withdrawal_log : Log
withdrawal_log = record {
  address = 0x800a;
  topics = 2 ∷ 77 ∷ [];
  data_bytes = [];
  block_number = some 20;
  l1_batch_number = some 3;
  transaction_hash = some 600;
}

abbrev message_log : Log
message_log = record {
  address = l1_messenger_address;
  topics = 3 ∷ 0x800a ∷ [];
  data_bytes = 1 ∷ 2 ∷ [];
  block_number = some 20;
  l1_batch_number = some 3;
  transaction_hash = some 600;
}

abbrev l2_to_l1_log : ℕ → L2ToL1Log
l2_to_l1_log value = record {
  sender = l1_messenger_address;
  key = 0x800a;
  value = value;
  is_service = true;
}

abbrev node : Env
node = record {
  eth_get_transaction_receipt = λ n hash. ok record {
    transaction_hash = hash;
    block_number = some 20;
    l1_batch_tx_index = some 8;
    l1_batch_number = some 3;
    logs = message_log ∷ withdrawal_log ∷ message_log ∷ withdrawal_log ∷ [];
    l2_to_l1_logs = l2_to_l1_log 800 ∷ l2_to_l1_log 900 ∷ l2_to_l1_log 900 ∷ [];
  };
  zks_get_l2_to_l1_log_proof = λ n hash index. ok (elim index [
    | none ↦ none
    | some i ↦ some (record { proof = 4 ∷ []; id = 50 + i; root = 6 })
  ]);
  l1_address = λ n token. panic;
  is_eth_withdrawal_finalized = λ n batch index. ok false;
  is_withdrawal_finalized = λ n batch index. ok false;
}

abbrev fresh : State
fresh = record { token_addrs = []; calls = 0 }

-- The second of the two gets the message index of the first.
second_gets_first : finalize_withdrawal_params generated node 600 1 fresh ≡ (
  ok (
      some (record {
        tx_hash = 600;
        event_index_in_tx = 1;
        id = 0;
        l2_block_number = 20;
        l1_batch_number = 3;
        l2_message_index = 51;
        l2_tx_number_in_block = 8;
        message = 1 ∷ 2 ∷ [];
        sender = 0x800a;
        proof = 4 ∷ [];
      })),
  record { token_addrs = []; calls = 2 },
)
unfolding finalize_withdrawal_params message_params ◌>>=◌ lift pure call nth_where position
    zks_get_transaction_receipt get_log_proof withdraw_message l2_to_l1_message_hash
second_gets_first = refl

finalize_withdrawal_params-IsOf_example :
    Post
      (λ found u. (p : WithdrawalParams) × (found ≡ some p) × IsOf generated node [] 600 1 p)
      (λ u. Unit {0})
      (finalize_withdrawal_params generated node 600 1 fresh)
finalize_withdrawal_params-IsOf_example = finalize_withdrawal_params-IsOf generated node 600 1 fresh
