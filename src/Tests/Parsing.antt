-- ===== src/Tests/Parsing.antt =====
-- The parser of client/src/zksync_contract.rs on a batch with one withdrawal of a token and on the
-- messages that client/src/lib.rs rebuilds, and the meter of withdrawals-meterer/src/lib.rs on a
-- withdrawal of ETH, known from the start, and one of a token that the table has.
use zksync_withdrawal_finali.Common.{
  ℕ, ◌≡◌, refl, List, [], ◌∷◌, ◌++◌, map, filter, length, take, ltb, if◌then◌else◌, arith, ok,
  panic, Outcome, Option, ap, some, none, true, false, ◌*◌, ◌+◌, ◌<◌,
}
use mathlib.Core.List.{Mem}
use zksync_withdrawal_finali.Common.Actions.Hoare.{Post}
use zksync_withdrawal_finali.Client.{eth_token_address, WithdrawalParams}
use zksync_withdrawal_finali.Client.Contract.{
  L2Log, event, log_of, is_from_messenger, parse_batch, erc20_event, message_events, part,
  from_be_bytes,
}
use zksync_withdrawal_finali.Client.Errors.{ClientError}
use zksync_withdrawal_finali.Client.Node
use zksync_withdrawal_finali.Client.Node.Messages.{bridge_burn_message, withdraw_message}
use zksync_withdrawal_finali.Client.Contract.Agreement.{packed, IsPacking, message_events-messages}
use zksync_withdrawal_finali.Tests.Asking.{generated}
use zksync_withdrawal_finali.Client.Contract.Framing.{to_be_bytes}
use zksync_withdrawal_finali.Client.Contract.Logs.{encode_pubdata}
use zksync_withdrawal_finali.Client.Contract.Messages.{events_of, parse_batch-encode_pubdata}
use zksync_withdrawal_finali.Client.Contract.Calls.{erc20_event-by_length}
use zksync_withdrawal_finali.Storage.Tables.{Db, WithdrawalRow}
use zksync_withdrawal_finali.Storage.Withdrawals.{
  StoredWithdrawal, with_block, get_withdrawals_with_no_data,
}
use zksync_withdrawal_finali.Storage.Finalization.{add_data_rows, add_withdrawals_data}
use zksync_withdrawal_finali.Storage.Finalization.Progress.{add_withdrawals_data-passes}
use zksync_withdrawal_finali.Meter.{Env, State, meter_withdrawals, new_tokens}
use zksync_withdrawal_finali.Meter.Cache.{increments, known}
use zksync_withdrawal_finali.Meter.Increments.{meter_withdrawals-increments}
use zksync_withdrawal_finali.Tests.Data.{as_stored, sample, without_data, eth_params}

abbrev finalize_eth : List ℕ
finalize_eth = 0x6c ∷ 0x09 ∷ 0x60 ∷ 0xf9 ∷ []

abbrev finalize_token : List ℕ
finalize_token = 0x11 ∷ 0xa2 ∷ 0xcc ∷ 0xc1 ∷ []

abbrev bridge : ℕ
bridge = 500

-- The log of the messenger for a message of the bridge, in the seventh transaction.
abbrev log_bytes : List ℕ
log_bytes =
    (0 ∷ 1 ∷ 0 ∷ 7 ∷ []) ++ (to_be_bytes 20 0x8008 ++ (to_be_bytes 32 bridge ++ to_be_bytes 32 9))

abbrev message : List ℕ
message =
    finalize_token ++ (to_be_bytes 20 44 ++ (to_be_bytes 20 55 ++ (to_be_bytes 32 1000 ++ [])))

parse_batch-encode_pubdata_example :
    parse_batch finalize_eth finalize_token bridge 90 (record {
      batch_number = 12;
      total_l2_to_l1_pubdata = encode_pubdata (log_bytes ∷ []) (message ∷ []) (5 ∷ []);
    })
    ≡ events_of finalize_eth finalize_token bridge 90 12
        (filter is_from_messenger (map log_of (log_bytes ∷ [])))
        (message ∷ [])
unfolding log_of
parse_batch-encode_pubdata_example =
    parse_batch-encode_pubdata finalize_eth finalize_token bridge 90 12 (log_bytes ∷ [])
      (message ∷ []) (5 ∷ []) (refl, tt) ((omega arith), tt) (omega arith) (omega arith)
      (omega arith)

abbrev log : L2Log
log = record {
  l_2_shard_id = 0;
  is_service = true;
  tx_number_in_batch = 7;
  sender = 0x8008;
  key = bridge;
  value = 9;
}

-- A message of 70 bytes.
abbrev short_message : List ℕ
short_message = take 70 message

erc20_event-by_length_example :
    erc20_event finalize_eth finalize_token bridge 90 12 log short_message ≡ (
      if ltb (length short_message) 68
      then ok []
      else if ltb (length short_message) 76
      then panic
      else ok (
          event 90 12 log
            (from_be_bytes (part 24 44 short_message))
            (from_be_bytes (part 4 24 short_message))
            (from_be_bytes (part 44 76 short_message))
          ∷ []))
erc20_event-by_length_example =
    erc20_event-by_length finalize_eth finalize_token bridge 90 12 log short_message refl
      (omega arith) refl

abbrev with_token_data : Db
with_token_data = record sample { finalization_data = add_data_rows (eth_params ∷ []) [] }

add_withdrawals_data-passes_example :
    (rows : List WithdrawalRow) × (get_withdrawals_with_no_data as_stored with_token_data 10
      ≡ map with_block rows)
    × ((row : WithdrawalRow) (p : WithdrawalParams)
        → Mem row rows
        → Mem p (eth_params ∷ [])
        → p.id < row.id)
unfolding add_withdrawals_data
add_withdrawals_data-passes_example =
    add_withdrawals_data-passes as_stored without_data with_token_data (eth_params ∷ []) 10 refl

abbrev meter_env : Env ℕ
meter_env = record {
  scan = as_stored;
  others = λ n db. db;
  connection_fails = λ n. false;
  format = λ amount decimals. some (amount * 100 + decimals);
}

abbrev meter_start : State ℕ
meter_start = record {
  db = record sample {
    tokens =
        record {
          l1_token_address = 4;
          l2_token_address = 9;
          name = "Token";
          symbol = "TKN";
          decimals = 6;
          l2_block_number = 3;
          initialization_transaction = 8;
        }
        ∷ [];
  };
  calls = 0;
  tokens = new_tokens;
  metrics = [];
}

abbrev of_token : ℕ → StoredWithdrawal
of_token token = record {
  event = record { tx_hash = 77; block_number = 5; token = token; amount = 100 };
  index_in_tx = 0;
}

abbrev to_meter : List StoredWithdrawal
to_meter = of_token eth_token_address ∷ of_token 9 ∷ of_token 10 ∷ of_token 9 ∷ []

meter_withdrawals-increments_example :
    Post
      (λ t u. u.metrics ≡ increments meter_env (known meter_env new_tokens meter_start.db) to_meter)
      (λ u.
        (done rest : List (ℕ × ℕ)) × ((increments meter_env
              (known meter_env new_tokens meter_start.db)
              to_meter
            ≡ done ++ rest)
          × (u.metrics ≡ done)))
      (meter_withdrawals meter_env to_meter meter_start)
meter_withdrawals-increments_example =
    meter_withdrawals-increments meter_env (λ n db. refl) meter_start to_meter

abbrev or_panic : Option (List ℕ) → Outcome ClientError (List ℕ)
or_panic none = panic
or_panic (some bytes) = ok bytes

abbrev packing : Node.Abi
packing = record generated {
  encode_u256 = to_be_bytes 32;
  encode_packed = λ tokens. or_panic (packed tokens);
}

packing-IsPacking : IsPacking packing
packing-IsPacking = record { packs = λ tokens bytes e. ap or_panic e; encodes = λ n. refl }

abbrev eth_log : L2Log
eth_log = record log { key = eth_token_address }

message_events-messages_example :
    ((message : List ℕ) × (bridge_burn_message packing 1000 44 55 ≡ ok message)
      × (message_events packing.finalize_eth_withdrawal packing.finalize_withdrawal bridge 90 12 log
            message
          ≡ ok (event 90 12 log 55 44 1000 ∷ [])))
    × ((message : List ℕ) × (withdraw_message packing (record { l_1_receiver = 44; amount = 1000 })
          ≡ ok message)
        × (message_events packing.finalize_eth_withdrawal packing.finalize_withdrawal bridge 90 12
              eth_log message
            ≡ ok (event 90 12 eth_log eth_token_address 44 1000 ∷ [])))
message_events-messages_example =
    message_events-messages packing bridge 90 12 packing-IsPacking refl refl (λ e. omega (arith, e))
      log eth_log 44 55 1000 refl refl (omega arith) (omega arith) (omega arith)
