-- ===== src/ChainEvents/Withdrawals/Run.antt =====
-- chain-events/src/l2_events.rs: the loop over the logs, and the rounds of reconnecting.
use zksync_withdrawal_finali.Common.{
  ℕ, zero, suc, Bool, true, false, Option, none, some, List, [], ◌∷◌, ◌++◌, ◌==◌, leb,
  if◌then◌else◌, Outcome, ok, err, panic, expect, unwrap_or,
}
use zksync_withdrawal_finali.Common.Actions.{pure, lift, ◌>>=◌, ◌>>◌, attempt}
use zksync_withdrawal_finali.Client.Node.{nth}
use zksync_withdrawal_finali.Watcher.Withdrawals.{withdrawal, restarted_from_block}
use zksync_withdrawal_finali.ChainEvents.World.{
  Error, EthLog, raw_log, LogQueryError, rpc_query_too_large,
}
use zksync_withdrawal_finali.ChainEvents.Withdrawals.{
  deployer_address, pagination_step, L2Events, bridge_burn, withdrawn, contract_deployed, RunResult,
  pagination_too_large, attempt_pagination_increase, other_error, Abi, Env, M, call, get_tokens,
  should_attempt_pagination_increase, next_pagination, send,
}
use zksync_withdrawal_finali.ChainEvents.Withdrawals.Deployments.{
  process_deployment, query_past_token_init_events,
}

-- `log.topics.get(1) != Some(&DEPLOYER_ADDRESS.into())`, negated.
abbrev pub from_deployer : Option ℕ → Bool
from_deployer none = false
from_deployer (some topic) = topic == deployer_address

-- Whether the log ends the loop: a token was added, or there was an error.
abbrev pub ends : Outcome Error Bool → Bool
ends (ok added) = added
ends (err e) = true
ends panic = true

abbrev pub stream_error : LogQueryError → RunResult
stream_error e = if rpc_query_too_large e then pagination_too_large else other_error

abbrev pub unless : {A : Type 0} → Bool → A → M A → M A
unless true a m = pure a
unless false a m = m

-- `from_block`, `last_seen_l2_token_block` and `pagination`.
pub record Resume : Type 0 where
  pub from_block : ℕ
  pub last_seen_l2_token_block : ℕ
  pub pagination : ℕ

abbrev pub resume : Resume → Outcome Error (ℕ × RunResult) → Resume
resume r (ok (last_seen_block, reason)) = record {
  from_block = last_seen_block;
  last_seen_l2_token_block = last_seen_block;
  pagination = next_pagination r.pagination reason;
}
resume r (err e) = r
resume r panic = r

module _ (abi : Abi) (env : Env) where
  abbrev pub send_withdrawal : ℕ → ℕ → EthLog → ℕ → M Bool
  send_withdrawal tx_hash block_number log amount = do
    send env (
        withdrawal (record {
          tx_hash = tx_hash;
          block_number = block_number;
          token = log.address;
          amount = amount;
        }))
    pure false

  -- Whether a token was added.
  unfoldable pub process_mined : ℕ → ℕ → EthLog → L2Events → M Bool
  process_mined tx_hash block_number log (bridge_burn amount) =
      send_withdrawal tx_hash block_number log amount
  process_mined tx_hash block_number log (withdrawn amount) =
      send_withdrawal tx_hash block_number log amount
  process_mined tx_hash block_number log contract_deployed = process_deployment abi env log

  abbrev pub if_mined : Option ℕ → Option ℕ → EthLog → L2Events → M Bool
  if_mined (some tx_hash) (some block_number) log l2_event =
      process_mined tx_hash block_number log l2_event
  if_mined (some tx_hash) none log l2_event = pure false
  if_mined none block_number log l2_event = pure false

  unfoldable pub process_l2_event : EthLog → L2Events → M Bool
  process_l2_event log l2_event = if_mined log.transaction_hash log.block_number log l2_event

  abbrev pub process_and_log : EthLog → L2Events → M Bool
  process_and_log log l2_event = do
    result ← attempt (process_l2_event log l2_event)
    pure (ends result)

  unfoldable pub process_decoded : EthLog → Option L2Events → M Bool
  process_decoded log none = pure false
  process_decoded log (some contract_deployed) =
      if from_deployer (nth 1 log.topics) then process_and_log log contract_deployed else pure false
  process_decoded log (some (bridge_burn amount)) = process_and_log log (bridge_burn amount)
  process_decoded log (some (withdrawn amount)) = process_and_log log (withdrawn amount)

  -- The `while let` of a run: the block seen last, and why the run is over.
  unfoldable pub read_logs : ℕ → ℕ → ℕ → List (Outcome LogQueryError EthLog) → M (ℕ × RunResult)
  read_logs step successful_logs last_seen_block [] = pure (last_seen_block, other_error)
  read_logs step successful_logs last_seen_block (err e ∷ items) =
      pure (last_seen_block, stream_error e)
  read_logs step successful_logs last_seen_block (panic ∷ items) = lift panic
  read_logs step successful_logs last_seen_block (ok log ∷ items) =
      unless (should_attempt_pagination_increase step (suc successful_logs))
        (last_seen_block, attempt_pagination_increase)
        (process_decoded log (abi.decode_log (raw_log log)) >>= λ over.
          unless over (unwrap_or log.block_number last_seen_block, other_error)
            (read_logs step (suc successful_logs) (unwrap_or log.block_number last_seen_block)
              items))

  module _ (token_deployer_addrs : List ℕ) where
    abbrev pub past_tokens : ℕ → ℕ → ℕ → M (Unit {0})
    past_tokens from_block last_seen_l2_token_block latest_block =
        if leb last_seen_l2_token_block from_block
        then query_past_token_init_events abi env token_deployer_addrs last_seen_l2_token_block
            latest_block
        else pure tt

    unfoldable pub run : ℕ → ℕ → ℕ → M (ℕ × RunResult)
    run from_block last_seen_l2_token_block step = do
      answer ← call env.latest_block
      block ← lift (expect answer)
      latest_block ← lift (expect block)
      past_tokens from_block last_seen_l2_token_block latest_block
      tokens ← get_tokens
      let addresses = tokens ++ token_deployer_addrs
      call (λ n. env.subscribe_logs n latest_block addresses)
      items ← call (λ n. ok (env.logs n from_block latest_block addresses step))
      read_logs step 0 from_block items

    abbrev pub run_if_connected : Resume → Bool → M Resume
    run_if_connected r false = pure r
    run_if_connected r true = do
      result ← attempt (run r.from_block r.last_seen_l2_token_block r.pagination)
      send env (restarted_from_block (resume r result).from_block)
      pure (resume r result)

    -- The first `n` rounds of the endless loop.
    unfoldable pub rounds : ℕ → Resume → M Resume
    rounds zero r = pure r
    rounds (suc n) r = do
      connected ← call (λ n. ok (env.connects n))
      next ← run_if_connected r connected
      rounds n next

    unfoldable pub run_with_reconnects : ℕ → ℕ → ℕ → M Resume
    run_with_reconnects n from_block last_seen_l2_token_block = rounds n record {
      from_block = from_block;
      last_seen_l2_token_block = last_seen_l2_token_block;
      pagination = pagination_step;
    }
