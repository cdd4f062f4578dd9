-- ===== src/Tests/Sending.antt =====
-- The sender of tx-sender/src/lib.rs against a node that answers at the third attempt.
use zksync_withdrawal_finali.Common.{
  ℕ, ◌+◌, ◌*◌, ◌≤◌, ◌<◌, ◌≡◌, refl, none, some, [], ok, arith, ltb, if◌then◌else◌, lt→ltb,
  unwrap_or,
}
use zksync_withdrawal_finali.TxSender.{
  Middleware, TransactionReceipt, TransactionRequest, Eip1559TransactionRequest, TypedTransaction,
  legacy, eip1559, Pending, timed_out, resolved, bump_predicted_fees, send_tx_adjust_gas, set_nonce,
  set_gas,
}
use zksync_withdrawal_finali.TxSender.Fees.{
  FeesRise, gas_price_of, priority_fee_of, max_fee_of, bump_predicted_fees-FeesRise,
  legacy_price-replaces, eip1559-covers_base_fee,
}
use zksync_withdrawal_finali.TxSender.Retries.{
  Sends, Explains, send_tx_adjust_gas-Sends, send_tx_adjust_gas-Explains,
}
use zksync_withdrawal_finali.TxSender.Answers.{send_tx_adjust_gas-returns}

abbrev pub mined : TransactionReceipt
mined = record { transaction_hash = 99; status = some 1 }

abbrev answer_at : ℕ → Pending
answer_at n = if ltb n 2 then timed_out else resolved (some mined)

abbrev pub node : Middleware
node = record {
  from_provider_err = λ s. record { as_provider_error = some s; as_error_response = none };
  fill_transaction = λ tx. ok tx;
  get_latest_block = λ n. ok (some (record { base_fee_per_gas = some (100 + n) }));
  send_transaction = λ n tx. ok (answer_at n);
}

abbrev request : TransactionRequest
request = record { nonce = none; gas = none; gas_price = some 200; payload = [] }

abbrev fee_request : Eip1559TransactionRequest
fee_request = record {
  nonce = none;
  gas = none;
  max_priority_fee_per_gas = some 10;
  max_fee_per_gas = some 50;
  payload = [];
}

send_tx_adjust_gas-Sends_example :
    Sends 7 30000
      (set_gas 30000 (set_nonce 7 (legacy request)))
      (send_tx_adjust_gas node (legacy request) 7 30000).1
send_tx_adjust_gas-Sends_example =
    send_tx_adjust_gas-Sends node (legacy request) (legacy request) 7 30000 refl

send_tx_adjust_gas-Explains_example :
    Explains node 0 (send_tx_adjust_gas node (legacy request) 7 30000)
send_tx_adjust_gas-Explains_example = send_tx_adjust_gas-Explains node (legacy request) 7 30000

early : (i : ℕ) (t : TypedTransaction) → i < 2 → node.send_transaction i t ≡ ok timed_out
early i t h = rw (lt→ltb i 2 h) refl

send_tx_adjust_gas-returns_example :
    (send_tx_adjust_gas node (legacy request) 7 30000).0 ≡ ok (some mined)
send_tx_adjust_gas-returns_example =
    send_tx_adjust_gas-returns node (legacy request) request 7 30000 2 200 (some mined) refl refl
      (omega arith) (omega arith) early (λ t. refl)

abbrev bumped_request : Eip1559TransactionRequest
bumped_request = record fee_request {
  max_priority_fee_per_gas = some 11;
  max_fee_per_gas = some 112;
}

bump_predicted_fees-FeesRise_example : FeesRise (eip1559 fee_request) (eip1559 bumped_request)
unfolding bump_predicted_fees
bump_predicted_fees-FeesRise_example =
    bump_predicted_fees-FeesRise node 1 15 (eip1559 fee_request) (eip1559 bumped_request) refl

legacy_price-replaces_example :
    (price' : ℕ) × (gas_price_of (legacy (record request { gas_price = some 230 })) ≡ some price')
    × (11 * 200 ≤ 10 * price')
unfolding bump_predicted_fees
legacy_price-replaces_example =
    legacy_price-replaces node 1 200 request (legacy (record request { gas_price = some 230 })) refl
      (omega arith) (omega arith) refl

eip1559-covers_base_fee_example :
    (101 + unwrap_or (priority_fee_of (eip1559 bumped_request)) 0
      ≤ unwrap_or (max_fee_of (eip1559 bumped_request)) 0)
    × (50 ≤ unwrap_or (max_fee_of (eip1559 bumped_request)) 0)
unfolding bump_predicted_fees
eip1559-covers_base_fee_example =
    eip1559-covers_base_fee node 1 15 101 50 fee_request (eip1559 bumped_request) refl refl refl
