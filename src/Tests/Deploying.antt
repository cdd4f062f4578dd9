-- ===== src/Tests/Deploying.antt =====
-- chain-events/src/l2_events.rs: a token that was deployed while the listener was not running. Its
-- deployment is in block 12, a withdrawal of another token in block 13.
use zksync_withdrawal_finali.Common.{
  ℕ, ◌+◌, ◌≡◌, refl, true, false, some, none, [], ◌∷◌, ok, leb, if◌then◌else◌,
}
use zksync_withdrawal_finali.Common.Actions.{◌>>=◌, attempt, lift, pure}
use zksync_withdrawal_finali.Client.Types.{Log}
use zksync_withdrawal_finali.Client.Node.{nth_where}
use zksync_withdrawal_finali.Watcher.Withdrawals.{
  L2Event, withdrawal, restarted_from_block, l2_token_init_event,
}
use zksync_withdrawal_finali.ChainEvents.World.{EthLog, rpc_query_too_large}
use zksync_withdrawal_finali.ChainEvents.Withdrawals.{
  Abi, Env, withdrawn, call, get_tokens, insert_token, send,
}
use zksync_withdrawal_finali.ChainEvents.Withdrawals.Run.{
  run_with_reconnects, rounds, run, read_logs, process_decoded, process_l2_event, process_mined,
}
use zksync_withdrawal_finali.ChainEvents.Withdrawals.Deployments.{
  query_past_token_init_events, process_deployments, process_deployment,
  look_for_bridge_initialize_event, bridge_initialize_event,
}

abbrev log_at : ℕ → EthLog
log_at block = record {
  address = 7;
  topics = 1 ∷ [];
  data_bytes = [];
  block_number = some block;
  transaction_hash = some (block + 100);
}

abbrev init_log : Log
init_log = record {
  address = 9;
  topics = 2 ∷ [];
  data_bytes = [];
  block_number = some 12;
  l1_batch_number = none;
  transaction_hash = some 112;
}

abbrev generated : Abi
generated = record {
  decode_log = λ raw. some (withdrawn 500);
  decode_bridge_init =
      λ raw. some (record { l_1_token = 70; name = "Token"; symbol = "TKN"; decimals = 6 });
  bridge_initialize_signature = 2;
  bridge_initialization_signature = 3;
}

abbrev node : Env
node = record {
  connects = λ n. true;
  latest_block = λ n. ok (some (some 13));
  deployments =
      λ n from_block to_block addresses. ok (if leb from_block 12 then log_at 12 ∷ [] else []);
  subscribe_logs = λ n to_block addresses. ok tt;
  logs = λ n from_block to_block addresses step. ok (log_at 13) ∷ [];
  zks_get_transaction_receipt = λ n hash. ok record {
    transaction_hash = hash;
    block_number = some 12;
    l1_batch_tx_index = none;
    l1_batch_number = none;
    logs = init_log ∷ [];
    l2_to_l1_logs = [];
  };
  closed = λ n. false;
}

abbrev sent_at_13 : L2Event
sent_at_13 = withdrawal (record { tx_hash = 113; block_number = 13; token = 7; amount = 500 })

-- With the last token in a block before the one at which reading begins, the token is found.
found_before :
    run_with_reconnects generated node
      (8 ∷ [])
      1
      11
      11
      record { calls = 0; tokens = 7 ∷ []; sent = [] }
    ≡ (
      ok record { from_block = 13; last_seen_l2_token_block = 13; pagination = 10000 },
      record {
        calls = 9;
        tokens = 7 ∷ 9 ∷ [];
        sent =
            l2_token_init_event (record {
              l1_token_address = 70;
              l2_token_address = 9;
              name = "Token";
              symbol = "TKN";
              decimals = 6;
              l2_block_number = 12;
              initialization_transaction = 112;
            })
            ∷ sent_at_13
            ∷ restarted_from_block 13
            ∷ [];
      },
    )
unfolding run_with_reconnects rounds ◌>>=◌ lift pure call attempt run query_past_token_init_events
    process_deployments process_deployment look_for_bridge_initialize_event bridge_initialize_event
    nth_where insert_token get_tokens read_logs process_decoded process_l2_event process_mined send
    rpc_query_too_large
found_before = refl

-- With the last token in a later one, the first round does not ask for deployments, and the second
-- asks for those from block 13 on.
missed_after :
    run_with_reconnects generated node
      (8 ∷ [])
      2
      10
      11
      record { calls = 0; tokens = 7 ∷ []; sent = [] }
    ≡ (
      ok record { from_block = 13; last_seen_l2_token_block = 13; pagination = 10000 },
      record {
        calls = 13;
        tokens = 7 ∷ [];
        sent = sent_at_13 ∷ restarted_from_block 13 ∷ sent_at_13 ∷ restarted_from_block 13 ∷ [];
      },
    )
unfolding run_with_reconnects rounds ◌>>=◌ lift pure call attempt run query_past_token_init_events
    process_deployments process_deployment look_for_bridge_initialize_event bridge_initialize_event
    nth_where insert_token get_tokens read_logs process_decoded process_l2_event process_mined send
    rpc_query_too_large
missed_after = refl
