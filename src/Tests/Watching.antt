-- ===== src/Tests/Watching.antt =====
-- The loops of watcher/src/lib.rs on the sample tables: a batch is committed and executed, and three
-- withdrawals of two blocks arrive.
use zksync_withdrawal_finali.Common.{
  ℕ, ◌≡◌, refl, true, Option, some, List, [], ◌∷◌, ok, ◌==◌, if◌then◌else◌, ◌+◌, ◌*◌, length, ◌++◌,
  ◌<◌,
}
use zksync_withdrawal_finali.Common.Actions.Hoare.{Post}
use zksync_withdrawal_finali.Client.{WithdrawalEvent}
use zksync_withdrawal_finali.Storage.Withdrawals.{StoredWithdrawal}
use zksync_withdrawal_finali.Watcher.World.{Env, BlockRangesParams}
use zksync_withdrawal_finali.Watcher.Blocks.{
  BlockEvent, block_commit, block_execution, run_l1_events_loop, batch_size,
}
use zksync_withdrawal_finali.Watcher.Blocks.Ranges.{Answers, written, Began}
use zksync_withdrawal_finali.Watcher.Blocks.Order.{run_l1_events_loop-in_order, WroteAllBut}
use zksync_withdrawal_finali.Watcher.Blocks.Tables.{
  run_l1_events_loop-tables, opening, SameTables, write_tables,
}
use zksync_withdrawal_finali.Watcher.Withdrawals.{
  L2Event, withdrawal, restarted_from_block, run_l2_events_loop, stored_withdrawals,
}
use zksync_withdrawal_finali.Watcher.Withdrawals.Numbering.{last_after, stored_of, numbered}
use zksync_withdrawal_finali.Watcher.Withdrawals.Batching.{run_l2_events_loop-in_order}
use zksync_withdrawal_finali.Tests.Data.{sample}

-- Six seconds pass with each call, so that every event is a batch.
abbrev pub seconds_pass : Env
seconds_pass = record {
  others = λ n db. db;
  connection_fails = λ n. n == 40;
  now = λ n. n * 6000;
  get_l1_batch_block_range = λ n batch. ok (some (batch * 10, batch * 10 + 9));
}

abbrev ranges : ℕ → Option (ℕ × ℕ)
ranges batch = some (batch * 10, batch * 10 + 9)

ranges-Answers : Answers seconds_pass ranges
ranges-Answers n batch range e = cc

abbrev block_events : List BlockEvent
block_events =
    block_commit 70 (record { batch_number = 3; batch_hash = 1; commitment = 2 })
    ∷ block_execution 71 (record { batch_number = 3; batch_hash = 1; commitment = 2 })
    ∷ []

run_l1_events_loop-in_order_example :
    Post
      (λ t u. (waiting : List BlockEvent) × WroteAllBut ranges [] block_events waiting u.trace)
      (λ u. Began [] (written ranges block_events) u.trace)
      (run_l1_events_loop seconds_pass block_events (opening sample))
run_l1_events_loop-in_order_example =
    run_l1_events_loop-in_order seconds_pass ranges ranges-Answers block_events (opening sample)

run_l1_events_loop-tables_example :
    Post
      (λ t u.
        (done waiting : List BlockEvent) × ((block_events ≡ done ++ waiting)
          × (length waiting < batch_size)
          × SameTables u.db (write_tables (written ranges done) sample)))
      (λ u.
        (done rest : List BlockRangesParams) × ((written ranges block_events ≡ done ++ rest)
          × SameTables u.db (write_tables done sample)))
      (run_l1_events_loop seconds_pass block_events (opening sample))
run_l1_events_loop-tables_example =
    run_l1_events_loop-tables seconds_pass ranges ranges-Answers (λ n db. (refl, refl)) block_events
      sample

abbrev seen : ℕ → ℕ → WithdrawalEvent
seen tx_hash block_number = record {
  tx_hash = tx_hash;
  block_number = block_number;
  token = 9;
  amount = 1;
}

abbrev l2_events : List L2Event
l2_events =
    withdrawal (seen 500 50)
    ∷ withdrawal (seen 500 50)
    ∷ withdrawal (seen 600 60)
    ∷ restarted_from_block 60
    ∷ withdrawal (seen 600 60)
    ∷ []

run_l2_events_loop-in_order_example :
    Post
      (λ t u.
        (waiting front : List WithdrawalEvent) × ((last_after [] l2_events ≡ front ++ waiting)
          × (stored_of u.trace ++ stored_withdrawals waiting ≡ numbered l2_events)))
      (λ u. (rest : List StoredWithdrawal) × (stored_of u.trace ++ rest ≡ numbered l2_events))
      (run_l2_events_loop seconds_pass true 40 l2_events (opening sample))
run_l2_events_loop-in_order_example =
    run_l2_events_loop-in_order (λ tx_hash. if tx_hash == 500 then 50 else 60) seconds_pass true 40
      l2_events (refl, (refl, (refl, (refl, tt)))) (opening sample)
