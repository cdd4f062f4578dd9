-- ===== src/ChainEvents/Withdrawals/Deployments.antt =====
-- chain-events/src/l2_events.rs: the initialization of a token, found in the receipt of the
-- transaction that deploys its contract.
use zksync_withdrawal_finali.Common.{
  ℕ, Bool, true, false, ◌||◌, Option, none, some, List, [], ◌∷◌, ◌==◌, if◌then◌else◌, Outcome, ok,
  panic, expect, contains,
}
use zksync_withdrawal_finali.Common.Actions.{pure, lift, ◌>>=◌, ◌>>◌}
use zksync_withdrawal_finali.Client.Types
use zksync_withdrawal_finali.Client.Types.{Log, TransactionReceipt}
use zksync_withdrawal_finali.Client.Node.{nth_where}
use zksync_withdrawal_finali.Client.Node.Messages.{first_topic_is}
use zksync_withdrawal_finali.Storage.Tokens.{L2TokenInitEvent}
use zksync_withdrawal_finali.Watcher.Withdrawals.{l2_token_init_event}
use zksync_withdrawal_finali.ChainEvents.World.{Error, EthLog}
use zksync_withdrawal_finali.ChainEvents.Withdrawals.{
  BridgeInit, Abi, Env, M, call, get_tokens, insert_token, send,
}

module _ (abi : Abi) where
  unfoldable pub look_for_bridge_initialize_event : TransactionReceipt → Outcome Error (Option Log)
  look_for_bridge_initialize_event tx =
      nth_where
        (first_topic_is (λ topic.
          topic == abi.bridge_initialize_signature || topic == abi.bridge_initialization_signature))
        0 tx.logs

  abbrev pub token_init_event : Log → BridgeInit → Outcome Error (Option L2TokenInitEvent)
  token_init_event log init = elim log.block_number [
    | none ↦ panic
    | some block_number ↦ (elim log.transaction_hash [
      | none ↦ panic
      | some hash ↦ ok (
          some (record {
            l1_token_address = init.l_1_token;
            l2_token_address = log.address;
            name = init.name;
            symbol = init.symbol;
            decimals = init.decimals;
            l2_block_number = block_number;
            initialization_transaction = hash;
          }))
    ])
  ]

  abbrev pub if_decoded : Log → List ℕ → Option BridgeInit → Outcome Error (Option L2TokenInitEvent)
  if_decoded log tokens none = ok none
  if_decoded log tokens (some init) =
      if contains log.address tokens then ok none else token_init_event log init

  -- The address of the token is the event's `l2_token_address`.
  unfoldable pub bridge_initialize_event : Log → List ℕ → Outcome Error (Option L2TokenInitEvent)
  bridge_initialize_event log tokens =
      if_decoded log tokens (abi.decode_bridge_init (Types.raw_log log))

  module _ (env : Env) where
    -- Whether the token is new.
    abbrev pub send_if_new : L2TokenInitEvent → Bool → M Bool
    send_if_new event false = pure false
    send_if_new event true = do send env (l2_token_init_event event); pure true

    abbrev pub if_initialized : Option L2TokenInitEvent → M Bool
    if_initialized none = pure false
    if_initialized (some event) = do
      inserted ← insert_token event.l2_token_address
      send_if_new event inserted

    abbrev pub if_found : Option Log → M Bool
    if_found none = pure false
    if_found (some bridge_init_log) = do
      tokens ← get_tokens
      event ← lift (bridge_initialize_event bridge_init_log tokens)
      if_initialized event

    -- What both loops do with a deployment: whether a token was added.
    unfoldable pub process_deployment : EthLog → M Bool
    process_deployment log = do
      hash ← lift (expect log.transaction_hash)
      tx ← call (λ n. env.zks_get_transaction_receipt n hash)
      bridge_init_log ← lift (look_for_bridge_initialize_event tx)
      if_found bridge_init_log

    unfoldable pub process_deployments : List EthLog → M (Unit {0})
    process_deployments [] = pure tt
    process_deployments (log ∷ logs) = do added ← process_deployment log; process_deployments logs

    unfoldable pub query_past_token_init_events : List ℕ → ℕ → ℕ → M (Unit {0})
    query_past_token_init_events token_deployer_addrs from_block to_block = do
      logs ← call (λ n. env.deployments n from_block to_block token_deployer_addrs)
      process_deployments logs
