-- ===== src/Watcher/Blocks.antt =====
-- watcher/src/lib.rs: the events of L1, asked for their ranges of L2 blocks and written in batches.
pub mod Ranges
pub mod Order
pub mod Tables
use mathlib.Core.Option
use zksync_withdrawal_finali.Common.{
  ℕ, ◌+◌, ◌-◌, ◌%◌, ◌^◌, Option, none, some, List, [], ◌∷◌, ◌++◌, length, Outcome, ok, err, panic,
  expect, as_u64, u64_mod, map_err, collect, Bool, true, false, ◌||◌, leb, ltb, if◌then◌else◌,
}
use zksync_withdrawal_finali.Common.Actions.{pure, lift, ◌>>=◌, ◌>>◌, attempt}
use zksync_withdrawal_finali.Storage.Tables.{Db}
use zksync_withdrawal_finali.Storage.Blocks.{
  committed_new_batch, verified_new_batch, executed_new_batch,
}
use zksync_withdrawal_finali.Storage.Events
use zksync_withdrawal_finali.Client.Contract.{L2ToL1Event}
use zksync_withdrawal_finali.Watcher.World.{
  Env, State, M, Error, client_error, BlockRangesParams, commit, verify, execute, l2_to_l1_events,
  wrote, call, write,
}

-- client/src/zksync_contract.rs, and the events of client/src/contracts/IZkSync.json.
pub record BatchFilter : Type 0 where
  pub batch_number : ℕ
  pub batch_hash : ℕ
  pub commitment : ℕ

pub record BlocksVerificationFilter : Type 0 where
  pub previous_last_verified_batch : ℕ
  pub current_last_verified_batch : ℕ

pub record BlocksRevertFilter : Type 0 where
  pub total_batches_committed : ℕ
  pub total_batches_verified : ℕ
  pub total_batches_executed : ℕ

pub data BlockEvent : Type 0 where
  block_commit : ℕ → BatchFilter → BlockEvent
  block_execution : ℕ → BatchFilter → BlockEvent
  blocks_verification : ℕ → BlocksVerificationFilter → BlockEvent
  blocks_revert : ℕ → BlocksRevertFilter → BlockEvent
  l2_to_l1 : List L2ToL1Event → BlockEvent

unfoldable pub apply_write : BlockRangesParams → Db → Db
apply_write (commit range_begin range_end block_number) db =
    committed_new_batch db range_begin range_end block_number
apply_write (verify range_begin range_end block_number) db =
    verified_new_batch db range_begin range_end block_number
apply_write (execute range_begin range_end block_number) db =
    executed_new_batch db range_begin range_end block_number
apply_write (l2_to_l1_events events) db = Events.l2_to_l1_events db events

-- The rows of `results.into_iter().flatten()`.
abbrev pub flatten {ℓ} : {A : Type ℓ} → List (Option A) → List A
flatten [] = []
flatten (none ∷ os) = flatten os
flatten (some a ∷ os) = a ∷ flatten os

abbrev pub executed_range : ℕ → ℕ × ℕ → BlockRangesParams
executed_range block_number range = execute range.0 range.1 block_number

abbrev pub committed_range : ℕ → ℕ × ℕ → BlockRangesParams
committed_range block_number range = commit range.0 range.1 block_number

abbrev pub verified_range : ℕ → Option (ℕ × ℕ) → Option (ℕ × ℕ) → Option BlockRangesParams
verified_range block_number (some first) (some last) = some (verify first.0 last.1 block_number)
verified_range block_number none last = none
verified_range block_number (some first) none = none

-- Milliseconds.
abbrev pub batch_backoff : ℕ
batch_backoff = 5000

abbrev pub batch_size : ℕ
batch_size = 1024

-- `block_event_batch` and `batch_begin`.
abbrev pub Batch : Type 0
Batch = List BlockEvent × ℕ

abbrev pub is_due : List BlockEvent → ℕ → ℕ → Bool
is_due batch begin now = leb batch_size (length batch) || ltb batch_backoff (now - begin)

module _ (env : Env) where
  unfoldable pub write_to_storage : BlockRangesParams → M (Unit {0})
  write_to_storage params = write env (wrote params) (apply_write params)

  -- The number is cast `as u32`.
  abbrev pub block_range : ℕ → M (Option (ℕ × ℕ))
  block_range batch =
      call (λ n. map_err client_error (env.get_l1_batch_block_range n (batch % 2 ^ 32)))

  -- The sum of u64 wraps in a release build.
  unfoldable pub request_block_ranges : BlockEvent → M (Option BlockRangesParams)
  request_block_ranges (block_commit block_number event) = do
    batch ← lift (expect (as_u64 event.batch_number))
    range ← block_range batch
    pure (Option.map (committed_range block_number) range)
  request_block_ranges (blocks_verification block_number event) = do
    previous ← lift (expect (as_u64 event.previous_last_verified_batch))
    current_last_verified_batch ← lift (expect (as_u64 event.current_last_verified_batch))
    first ← block_range ((previous + 1) % u64_mod)
    last ← block_range current_last_verified_batch
    pure (verified_range block_number first last)
  request_block_ranges (block_execution block_number event) = do
    batch ← lift (expect (as_u64 event.batch_number))
    range ← block_range batch
    pure (Option.map (executed_range block_number) range)
  request_block_ranges (blocks_revert block_number event) = pure none
  request_block_ranges (l2_to_l1 events) = pure (some (l2_to_l1_events events))

  -- Every request is made, whatever the others answer.
  unfoldable pub request_all : List BlockEvent → M (List (Outcome Error (Option BlockRangesParams)))
  request_all [] = pure []
  request_all (event ∷ events) = do
    answer ← attempt (request_block_ranges event)
    answers ← request_all events
    pure (answer ∷ answers)

  unfoldable pub write_all : List BlockRangesParams → M (Unit {0})
  write_all [] = pure tt
  write_all (params ∷ rest) = do write_to_storage params; write_all rest

  unfoldable pub process_block_events : List BlockEvent → M (Unit {0})
  process_block_events events = do
    answers ← request_all events
    results ← lift (collect answers)
    write_all (flatten results)

  abbrev pub flush_batch : List BlockEvent → M Batch
  flush_batch batch = do
    process_block_events batch
    now ← call (λ n. ok (env.now n))
    pure ([], now)

  -- The body of the `while let`.
  unfoldable pub on_block_event : Batch → BlockEvent → M Batch
  on_block_event (batch, begin) event = do
    let pushed = batch ++ event ∷ []
    now ← call (λ n. ok (env.now n))
    if is_due pushed begin now then flush_batch pushed else pure (pushed, begin)

  unfoldable pub read_block_events : Batch → List BlockEvent → M (Unit {0})
  read_block_events batch [] = pure tt
  read_block_events batch (event ∷ events) = do
    next ← on_block_event batch event
    read_block_events next events

  -- The events that the stream gives before it ends.
  unfoldable pub run_l1_events_loop : List BlockEvent → M (Unit {0})
  run_l1_events_loop events = do
    begin ← call (λ n. ok (env.now n))
    read_block_events ([], begin) events
