-- ===== src/Tests/Reconnecting.antt =====
-- chain-events/src/block_events.rs on a chain with the events of two blocks, the stream of whose first
-- round ends with an error after one.
use mathlib.Core.List.{Mem, mem-cons_self}
use zksync_withdrawal_finali.Common.{
  arith, ℕ, ◌≡◌, refl, true, false, some, none, [], ◌∷◌, ok, ltb, leb, inl, inr, Bool-cases,
}
use zksync_withdrawal_finali.Common.Actions.{◌>>=◌, lift, pure, attempt}
use zksync_withdrawal_finali.Watcher.Blocks.{BlockEvent, blocks_verification}
use zksync_withdrawal_finali.ChainEvents.Blocks.{
  Abi, Env, State, verification, run_with_reconnects, call, run, read_logs, process_l1_event, send,
}
use zksync_withdrawal_finali.ChainEvents.Blocks.Rounds.{
  StreamsAreGapless, run_with_reconnects-sends,
}
use zksync_withdrawal_finali.Tests.Listening.{
  log_at, OnChain, given, not_before_10, before_11, past_10,
}

abbrev verifications : Abi
verifications = record {
  decode_log = λ raw.
      some (
        verification
          (record { previous_last_verified_batch = 4; current_last_verified_batch = 5 }));
  decode_commit_batches = λ input. none;
  finalize_eth_withdrawal = 1 ∷ 2 ∷ 3 ∷ 4 ∷ [];
  finalize_withdrawal = 5 ∷ 6 ∷ 7 ∷ 8 ∷ [];
}

abbrev node : Env
node = record {
  connects = λ n. true;
  latest_block = λ n. ok (some (some 11));
  subscribe_logs = λ n to_block. ok tt;
  logs = λ n from_block to_block. given n from_block;
  get_transaction = λ n hash. ok none;
  closed = λ n. false;
}

node-gapless : StreamsAreGapless node verifications 9 OnChain 10
node-gapless n from_block to_block = elim (Bool-cases (leb from_block 10)) [
  | inl t ↦ rw t (elim (Bool-cases (ltb n 5)) [
    | inl small ↦ rw small (λ log b c o h e f l. not_before_10 [] log b c o h e l, tt)
    | inr large ↦ rw large (
      λ log b c o h e f l. not_before_10 [] log b c o h e l,
      (λ log b c o h e f l. before_11 (log_at 10 ∷ []) log b c (λ at. mem-cons_self) o h e l, tt),
    )
  ])
  | inr t ↦ rw t (elim (Bool-cases (leb from_block 11)) [
    | inl small ↦
        rw small (λ log b c o h e f l. before_11 [] log b c (past_10 from_block b t f) o h e l, tt)
    | inr large ↦ rw large tt
  ])
]

abbrev verified_at : ℕ → BlockEvent
verified_at block =
    blocks_verification block
      (record { previous_last_verified_batch = 4; current_last_verified_batch = 5 })

abbrev fresh : State
fresh = record { calls = 0; sent = [] }

abbrev listened : State
listened = record { calls = 11; sent = verified_at 10 ∷ verified_at 10 ∷ verified_at 11 ∷ [] }

two_rounds : run_with_reconnects node verifications 9 2 10 fresh ≡ (ok 11, listened)
unfolding run_with_reconnects ◌>>=◌ lift pure call attempt run read_logs process_l1_event send
two_rounds = refl

run_with_reconnects-sends_example : Mem (verified_at 10) listened.sent
run_with_reconnects-sends_example =
    run_with_reconnects-sends node verifications 9 OnChain 10 node-gapless 2 11 fresh listened
      two_rounds (log_at 10) (verified_at 10) 10 (inl refl) refl refl (omega arith) (omega arith)
