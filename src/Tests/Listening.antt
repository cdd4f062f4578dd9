-- ===== src/Tests/Listening.antt =====
-- chain-events/src/l2_events.rs on a chain with two withdrawals of a token: the node refuses the
-- first query after one log, so that the listener halves the pagination and reads again.
use mathlib.Core.List.{Mem, mem-cons_self}
use mathlib.Core.Logic.{◌⊎◌}
use zksync_withdrawal_finali.Common.{
  arith, ℕ, ◌<◌, ◌≤◌, ◌+◌, ◌-◌, ◌≡◌, refl, sym, ap, ◌∙◌, subst, panic, true, false, All, some, none,
  List, [], ◌∷◌, ◌++◌, ok, err, Outcome, ltb, leb, inl, inr, if◌then◌else◌, Bool-cases,
}
use zksync_withdrawal_finali.Common.Actions.{◌>>=◌, attempt}
use zksync_withdrawal_finali.Common.Actions.Hoare.{Post}
use zksync_withdrawal_finali.Client.{WithdrawalEvent}
use zksync_withdrawal_finali.Storage.Withdrawals.{StoredWithdrawal}
use zksync_withdrawal_finali.Watcher.Withdrawals.{
  L2Event, withdrawal, restarted_from_block, run_l2_events_loop,
}
use zksync_withdrawal_finali.Watcher.Withdrawals.Numbering.{stored_of, numbered}
use zksync_withdrawal_finali.Watcher.Withdrawals.Members.{events}
use zksync_withdrawal_finali.ChainEvents.World.{
  rpc_query_too_large, EthLog, LogQueryError, json_rpc_client_error,
}
use zksync_withdrawal_finali.ChainEvents.Withdrawals.{
  Abi, Env, State, withdrawn, call, get_tokens, send,
}
use zksync_withdrawal_finali.ChainEvents.Withdrawals.Run.{
  Resume, run_with_reconnects, rounds, run, read_logs, process_decoded, process_l2_event,
  process_mined,
}
use zksync_withdrawal_finali.ChainEvents.Withdrawals.Deployments.{
  query_past_token_init_events, process_deployments,
}
use zksync_withdrawal_finali.ChainEvents.Withdrawals.Reading.{ComesFrom}
use zksync_withdrawal_finali.ChainEvents.Withdrawals.Rounds.{StreamsAreGapless}
use zksync_withdrawal_finali.ChainEvents.Withdrawals.Pagination.{
  InRange, run_with_reconnects-InRange,
}
use zksync_withdrawal_finali.ChainEvents.Withdrawals.Stored.{IsInBlock, run_with_reconnects-stored}
use zksync_withdrawal_finali.Watcher.Blocks.Tables.{opening}
use zksync_withdrawal_finali.Tests.Data.{sample}
use zksync_withdrawal_finali.Tests.Watching.{seconds_pass}

abbrev pub log_at : ℕ → EthLog
log_at block = record {
  address = 7;
  topics = 1 ∷ [];
  data_bytes = [];
  block_number = some block;
  transaction_hash = some (block + 100);
}

abbrev pub OnChain : EthLog → Type 0
OnChain log = (log ≡ log_at 10) ⊎ (log ≡ log_at 11)

abbrev too_large : LogQueryError
too_large =
    json_rpc_client_error
      (some "Query returned more than 10000 results. Try with this block range [0x1, 0x2].")

abbrev pub given : ℕ → ℕ → List (Outcome LogQueryError EthLog)
given n from_block =
    if leb from_block 10
    then (if ltb n 5
        then ok (log_at 10) ∷ err too_large ∷ []
        else ok (log_at 10) ∷ ok (log_at 11) ∷ [])
    else (if leb from_block 11 then ok (log_at 11) ∷ [] else [])

abbrev withdrawals : Abi
withdrawals = record {
  decode_log = λ raw. some (withdrawn 500);
  decode_bridge_init = λ raw. none;
  bridge_initialize_signature = 2;
  bridge_initialization_signature = 3;
}

abbrev node : Env
node = record {
  connects = λ n. true;
  latest_block = λ n. ok (some (some 11));
  deployments = λ n from_block to_block addresses. ok [];
  subscribe_logs = λ n to_block addresses. ok tt;
  logs = λ n from_block to_block addresses step. given n from_block;
  zks_get_transaction_receipt = λ n hash. panic;
  closed = λ n. false;
}

some-eq : (a b : ℕ) → some a ≡ some b → b ≡ a
some-eq a b e = cc

block-cases :
    (log : EthLog) (b : ℕ)
    → OnChain log
    → log.block_number ≡ some b
    → ((b ≡ 10) × (log ≡ log_at 10)) ⊎ ((b ≡ 11) × (log ≡ log_at 11))
block-cases log b (inl e) h = inl (some-eq 10 b (sym (ap (λ l. l.block_number) e) ∙ h), e)
block-cases log b (inr e) h = inr (some-eq 11 b (sym (ap (λ l. l.block_number) e) ∙ h), e)

OnChain-IsInBlock : (log : EthLog) → OnChain log → IsInBlock (λ h. h - 100) log
OnChain-IsInBlock log (inl e) h b t n =
    let hash : h ≡ 110 = some-eq 110 h (sym (ap (λ l. l.transaction_hash) e) ∙ t) in
    let block : b ≡ 10 = some-eq 10 b (sym (ap (λ l. l.block_number) e) ∙ n) in
    omega (arith, hash, block)
OnChain-IsInBlock log (inr e) h b t n =
    let hash : h ≡ 111 = some-eq 111 h (sym (ap (λ l. l.transaction_hash) e) ∙ t) in
    let block : b ≡ 11 = some-eq 11 b (sym (ap (λ l. l.block_number) e) ∙ n) in
    omega (arith, hash, block)

pub not_before_10 :
    (before : List EthLog) (log : EthLog) (b c : ℕ)
    → OnChain log
    → log.block_number ≡ some b
    → some 10 ≡ some c
    → b < c
    → Mem log before
not_before_10 before log b c o h e l = elim (block-cases log b o h) [
  | inl at ↦
      let first : b ≡ 10 = at.0 in
      let same : c ≡ 10 = some-eq 10 c e in absurd (omega (arith, first, same, l))
  | inr at ↦
      let first : b ≡ 11 = at.0 in
      let same : c ≡ 10 = some-eq 10 c e in absurd (omega (arith, first, same, l))
]

pub before_11 :
    (before : List EthLog) (log : EthLog) (b c : ℕ)
    → (b ≡ 10 → Mem (log_at 10) before)
    → OnChain log
    → log.block_number ≡ some b
    → some 11 ≡ some c
    → b < c
    → Mem log before
before_11 before log b c given o h e l = elim (block-cases log b o h) [
  | inl at ↦ subst (λ x. Mem x before) (sym at.1) (given at.0)
  | inr at ↦
      let first : b ≡ 11 = at.0 in
      let same : c ≡ 11 = some-eq 11 c e in absurd (omega (arith, first, same, l))
]

pub past_10 :
    (from_block b : ℕ) → leb from_block 10 ≡ false → from_block ≤ b → b ≡ 10 → Mem (log_at 10) []
past_10 from_block b f l e = absurd (ground arith)

node-gapless : StreamsAreGapless withdrawals node OnChain (7 ∷ []) 10
node-gapless n from_block to_block addresses step = elim (Bool-cases (leb from_block 10)) [
  | inl t ↦ rw t (elim (Bool-cases (ltb n 5)) [
    | inl small ↦
        rw small (λ log w b c o a i h e f l. not_before_10 [] log b c o h e l, inl refl, tt)
    | inr large ↦ rw large (
      λ log w b c o a i h e f l. not_before_10 [] log b c o h e l,
      inl refl,
      (
        λ log w b c o a i h e f l. before_11 (log_at 10 ∷ []) log b c (λ at. mem-cons_self) o h e l,
        inr refl,
        tt,
      ),
    )
  ])
  | inr t ↦ rw t (elim (Bool-cases (leb from_block 11)) [
    | inl small ↦ rw small (
      λ log w b c o a i h e f l. before_11 [] log b c (past_10 from_block b t f) o h e l,
      inr refl,
      tt,
    )
    | inr large ↦ rw large tt
  ])
]

abbrev first_withdrawal : WithdrawalEvent
first_withdrawal = record { tx_hash = 110; block_number = 10; token = 7; amount = 500 }

abbrev sent_at : ℕ → L2Event
sent_at block =
    withdrawal (record { tx_hash = block + 100; block_number = block; token = 7; amount = 500 })

abbrev events_sent : List L2Event
events_sent =
    sent_at 10 ∷ restarted_from_block 10 ∷ sent_at 10 ∷ sent_at 11 ∷ restarted_from_block 11 ∷ []

abbrev resumed : Resume
resumed = record { from_block = 11; last_seen_l2_token_block = 11; pagination = 5000 }

abbrev listened : State
listened = record { calls = 15; tokens = 7 ∷ []; sent = events_sent }

two_rounds :
    run_with_reconnects withdrawals node
      (8 ∷ [])
      2
      10
      10
      record { calls = 0; tokens = 7 ∷ []; sent = [] }
    ≡ (ok resumed, listened)
unfolding run_with_reconnects rounds ◌>>=◌ call attempt run query_past_token_init_events
    process_deployments get_tokens read_logs process_decoded process_l2_event process_mined send
    rpc_query_too_large
two_rounds = refl

run_with_reconnects-stored_example :
    Post
      (λ t v.
        Mem first_withdrawal (events (stored_of v.trace))
        × (stored_of v.trace ≡ numbered events_sent)
        × All (ComesFrom withdrawals OnChain) events_sent)
      (λ v. (rest : List StoredWithdrawal) × (stored_of v.trace ++ rest ≡ numbered events_sent))
      (run_l2_events_loop seconds_pass true 10 events_sent (opening sample))
run_with_reconnects-stored_example =
    run_with_reconnects-stored withdrawals node OnChain (λ h. h - 100) (7 ∷ []) 10 OnChain-IsInBlock
      node-gapless (8 ∷ []) 2 10 0 resumed listened two_rounds (log_at 10) first_withdrawal 10
      (inl refl) mem-cons_self refl refl (omega arith) (omega arith) seconds_pass true 10
      (opening sample)

run_with_reconnects-InRange_example :
    Post
      (λ next u. InRange next.pagination)
      (λ u. Unit {0})
      (run_with_reconnects withdrawals node (8 ∷ []) 2 10 10 listened)
run_with_reconnects-InRange_example =
    run_with_reconnects-InRange withdrawals node (8 ∷ []) 2 10 10 listened
