-- ===== src/ChainEvents/Blocks.antt =====
-- chain-events/src/block_events.rs: the listener for the events of L1.
pub mod Sending
pub mod Reading
pub mod Rounds
use zksync_withdrawal_finali.Common.{
  ℕ, zero, suc, Bool, true, false, Option, none, some, List, [], ◌∷◌, ◌++◌, Outcome, ok, err, panic,
  expect, unwrap_or,
}
use zksync_withdrawal_finali.Common.Actions.{Stateful, pure, lift, ◌>>=◌, ◌>>◌, attempt}
use zksync_withdrawal_finali.Client.Types.{RawLog}
use zksync_withdrawal_finali.Client.Contract.{
  AbiError, BatchData, L2ToL1Event, parse_withdrawal_events_l1,
}
use zksync_withdrawal_finali.Watcher.Blocks.{
  BatchFilter, BlocksVerificationFilter, BlockEvent, block_commit, block_execution,
  blocks_verification, l2_to_l1,
}
use zksync_withdrawal_finali.ChainEvents.World.{
  Error, channel_closing, EthLog, raw_log, LogQueryError,
}

-- 12 * 10
abbrev pub pending_tx_retry : ℕ
pending_tx_retry = 120

pub data L1Events : Type 0 where
  commit : BatchFilter → L1Events
  verification : BlocksVerificationFilter → L1Events
  execution : BatchFilter → L1Events

pub record Transaction : Type 0 where
  pub block_number : Option ℕ
  pub input : List ℕ

-- Generated code: the decoding of logs and calls, and the selectors.
pub record Abi : Type 0 where
  pub decode_log : RawLog → Option L1Events
  pub decode_commit_batches : List ℕ → Option (List BatchData)
  pub finalize_eth_withdrawal : List ℕ
  pub finalize_withdrawal : List ℕ

-- The answers from outside, by the number of the call. `logs` is the stream of the past logs from a
-- block to another, followed by the new ones, until it ends; `closed` says whether the receiver is
-- gone.
pub record Env : Type 0 where
  pub connects : ℕ → Bool
  pub latest_block : ℕ → Outcome Error (Option (Option ℕ))
  pub subscribe_logs : ℕ → ℕ → Outcome Error (Unit {0})
  pub logs : ℕ → ℕ → ℕ → List (Outcome LogQueryError EthLog)
  pub get_transaction : ℕ → ℕ → Outcome Error (Option Transaction)
  pub closed : ℕ → Bool

-- `sent` has the first event first.
pub record State : Type 0 where
  pub calls : ℕ
  pub sent : List BlockEvent

abbrev pub M : Type 0 → Type 0
M A = Stateful State Error A

unfoldable pub call : {A : Type 0} → (ℕ → Outcome Error A) → M A
call answer s = (answer s.calls, record s { calls = suc s.calls })

abbrev pub run_send : Bool → BlockEvent → State → Outcome Error (Unit {0}) × State
run_send true event s = (err channel_closing, record s { calls = suc s.calls })
run_send false event s = (ok tt, record s { calls = suc s.calls; sent = s.sent ++ event ∷ [] })

abbrev pub unwrapped : {A : Type 0} → Outcome AbiError A → Outcome Error A
unwrapped (ok a) = ok a
unwrapped (err e) = panic
unwrapped panic = panic

abbrev pub next_from : ℕ → Outcome Error ℕ → ℕ
next_from from_block (ok block) = block
next_from from_block (err e) = from_block
next_from from_block panic = from_block

module _ (env : Env) where
  unfoldable pub send : BlockEvent → M (Unit {0})
  send event s = run_send (env.closed s.calls) event s

  -- Only a mined transaction is an answer.
  abbrev pub mined_or :
      M (Option Transaction) → Outcome Error (Option Transaction) → M (Option Transaction)
  mined_or next (ok (some tx)) = elim tx.block_number [ none ↦ next | some n ↦ pure (some tx) ]
  mined_or next (ok none) = next
  mined_or next (err e) = next
  mined_or next panic = next

  unfoldable pub get_tx_with_retries : ℕ → ℕ → M (Option Transaction)
  get_tx_with_retries tx_hash zero = pure none
  get_tx_with_retries tx_hash (suc retries) = do
    answer ← attempt (call (λ n. env.get_transaction n tx_hash))
    mined_or (get_tx_with_retries tx_hash retries) answer

  module _ (abi : Abi) (l2_erc20_bridge_addr : ℕ) where
    abbrev pub parsed : Option (List BatchData) → Transaction → Outcome Error (List L2ToL1Event)
    parsed none tx = ok []
    parsed (some commit_blocks) tx = elim tx.block_number [
      | none ↦ panic
      | some block_number ↦ unwrapped (
          parse_withdrawal_events_l1 abi.finalize_eth_withdrawal abi.finalize_withdrawal
            l2_erc20_bridge_addr block_number commit_blocks)
    ]

    -- The sender gets the withdrawals of the commitment before the commitment.
    abbrev pub process_commit : ℕ → BatchFilter → Option ℕ → M (Unit {0})
    process_commit block_number bc transaction_hash = do
      hash ← lift (expect transaction_hash)
      found ← get_tx_with_retries hash pending_tx_retry
      tx ← lift (expect found)
      events ← lift (parsed (abi.decode_commit_batches tx.input) tx)
      send (l2_to_l1 events)
      send (block_commit block_number bc)

    unfoldable pub process_l1_event : ℕ → EthLog → L1Events → M (Unit {0})
    process_l1_event block_number log (commit bc) =
        process_commit block_number bc log.transaction_hash
    process_l1_event block_number log (verification event) =
        send (blocks_verification block_number event)
    process_l1_event block_number log (execution event) = send (block_execution block_number event)

    abbrev pub process_decoded : ℕ → EthLog → Option L1Events → M (Unit {0})
    process_decoded block_number log none = pure tt
    process_decoded block_number log (some l1_event) = process_l1_event block_number log l1_event

    -- A log without a block is skipped.
    abbrev pub process_log : Option ℕ → EthLog → M (Unit {0})
    process_log none log = pure tt
    process_log (some block_number) log =
        process_decoded block_number log (abi.decode_log (raw_log log))

    -- The `while let`: an error of the stream ends it.
    unfoldable pub read_logs : ℕ → List (Outcome LogQueryError EthLog) → M ℕ
    read_logs last_seen_block [] = pure last_seen_block
    read_logs last_seen_block (err e ∷ items) = pure last_seen_block
    read_logs last_seen_block (panic ∷ items) = lift panic
    read_logs last_seen_block (ok log ∷ items) = do
      process_log log.block_number log
      read_logs (unwrap_or log.block_number last_seen_block) items

    unfoldable pub run : ℕ → M ℕ
    run from_block = do
      answer ← call env.latest_block
      block ← lift (expect answer)
      latest_block ← lift (expect block)
      call (λ n. env.subscribe_logs n latest_block)
      items ← call (λ n. ok (env.logs n from_block latest_block))
      read_logs from_block items

    abbrev pub run_if_connected : ℕ → Bool → M ℕ
    run_if_connected from_block false = pure from_block
    run_if_connected from_block true = do
      result ← attempt (run from_block)
      pure (next_from from_block result)

    -- The first `n` rounds of the endless loop; the result is the block that the next one starts at.
    unfoldable pub run_with_reconnects : ℕ → ℕ → M ℕ
    run_with_reconnects zero from_block = pure from_block
    run_with_reconnects (suc n) from_block = do
      connected ← call (λ n. ok (env.connects n))
      block ← run_if_connected from_block connected
      run_with_reconnects n block
