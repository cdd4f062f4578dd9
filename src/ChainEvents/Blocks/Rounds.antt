-- ===== src/ChainEvents/Blocks/Rounds.antt =====
-- chain-events/src/block_events.rs: no event of L1 is lost between the rounds of the listener.
use mathlib.Core.List.{Mem, not-mem-nil}
use zksync_withdrawal_finali.Common.{
  arith, ℕ, zero, suc, ◌<◌, ◌≤◌, ◌≡◌, refl, subst, Bool, true, false, Option, none, some, List, [],
  ◌∷◌, ◌++◌, Outcome, ok, err, panic, unwrap_or,
}
use zksync_withdrawal_finali.Common.Actions.Hoare.{
  Post, Given, Triple, Triple-bind, Triple-bind_given, Triple-pure, Triple-lift, Triple-attempt,
  Triple-imp,
}
use zksync_withdrawal_finali.Watcher.Blocks.{BlockEvent}
use zksync_withdrawal_finali.ChainEvents.World.{EthLog, raw_log, LogQueryError}
use zksync_withdrawal_finali.ChainEvents.Blocks.{
  Abi, Env, State, call, process_log, read_logs, run, next_from, run_if_connected,
  run_with_reconnects,
}
use zksync_withdrawal_finali.ChainEvents.Blocks.Sending.{
  own_event, IsSent, IsKept, In, Keeps-call, Keeps-lift, process_decoded-Sends,
}
use zksync_withdrawal_finali.ChainEvents.Blocks.Reading.{
  event_in, IsGapless, SentBelow, Reading, Reading-IsKept, advance, also, start_over,
}

module _ (env : Env) (abi : Abi) (l2_erc20_bridge_addr : ℕ) (OnChain : EthLog → Type 0)
    (first : ℕ) where
  abbrev At : ℕ → ℕ → List EthLog → State → Type 0
  At from_block last before = In (Reading abi OnChain first from_block last before)

  -- All is sent that the chain logged before block `n`.
  abbrev UpTo : ℕ → State → Type 0
  UpTo n = At n n []

  process_log-Sends :
      (Q : List BlockEvent → Type 0)
      → IsKept Q
      → (block_number : Option ℕ) (log : EthLog)
      → Triple
          (In Q)
          (process_log env abi l2_erc20_bridge_addr block_number log)
          (λ t s. In Q s × IsSent (own_event block_number (abi.decode_log (raw_log log))) s.sent)
          (In Q)
  process_log-Sends Q kept none log = Triple-pure tt (λ s q. (q, λ e o. cc))
  process_log-Sends Q kept (some n) log =
      process_decoded-Sends Q env kept abi l2_erc20_bridge_addr n log (abi.decode_log (raw_log log))

  read_logs-UpTo :
      (from_block last : ℕ) (before : List EthLog) (items : List (Outcome LogQueryError EthLog))
      → IsGapless OnChain from_block before items
      → Triple
          (At from_block last before)
          (read_logs env abi l2_erc20_bridge_addr last items)
          UpTo
          (UpTo from_block)
  unfolding read_logs
  read_logs-UpTo from_block last before [] g =
      Triple-pure last
        (λ s r. start_over abi OnChain first from_block last last before s.sent r.below_last r)
  read_logs-UpTo from_block last before (err e ∷ items) g =
      Triple-pure last
        (λ s r. start_over abi OnChain first from_block last last before s.sent r.below_last r)
  read_logs-UpTo from_block last before (panic ∷ items) g =
      Triple-lift panic (λ a s e r. cc)
        (λ s r.
          start_over abi OnChain first from_block last from_block before s.sent r.below_from r)
  read_logs-UpTo from_block last before (ok log ∷ items) g =
      Triple-bind _ _
        (Triple-imp (λ s r. r)
          (λ t s h.
            also abi OnChain first from_block (unwrap_or log.block_number last) log before s.sent
              (advance abi OnChain first from_block last log log.block_number before s.sent refl g.0
                h.0)
              h.1)
          (λ s r.
            start_over abi OnChain first from_block last from_block before s.sent r.below_from r)
          (process_log-Sends (Reading abi OnChain first from_block last before)
            (Reading-IsKept abi OnChain first from_block last before) log.block_number log))
        (λ t.
          read_logs-UpTo from_block (unwrap_or log.block_number last) (before ++ log ∷ []) items
            g.1)

  abbrev pub StreamsAreGapless : Type 0
  StreamsAreGapless =
      (n from_block to_block : ℕ) → IsGapless OnChain from_block [] (env.logs n from_block to_block)

  module _ (gapless : StreamsAreGapless) where
    Triple-ask :
        {A : Type 0} (n : ℕ) (answer : ℕ → A)
        → Triple
            (UpTo n)
            (call (λ k. ok (answer k)))
            (Given (UpTo n) (λ a. (k : ℕ) × (answer k ≡ a)))
            (UpTo n)
    unfolding call
    Triple-ask n answer = record { at = λ s r. (r, (s.calls, refl)) }

    run-UpTo : (n : ℕ) → Triple (UpTo n) (run env abi l2_erc20_bridge_addr n) UpTo (UpTo n)
    unfolding run
    run-UpTo n = Triple-bind _ _ (Keeps-call (Reading abi OnChain first n n []) _) (λ answer.
        Triple-bind _ _ (Keeps-lift (Reading abi OnChain first n n []) _) (λ block.
          Triple-bind _ _ (Keeps-lift (Reading abi OnChain first n n []) _) (λ latest.
            Triple-bind _ _ (Keeps-call (Reading abi OnChain first n n []) _) (λ t.
              Triple-bind_given _ _ (Triple-ask n _) (λ items found.
                read_logs-UpTo n n [] items
                  (subst (IsGapless OnChain n []) found.1 (gapless found.0 n latest)))))))

    run_if_connected-UpTo :
        (n : ℕ) (connected : Bool)
        → Triple
            (UpTo n)
            (run_if_connected env abi l2_erc20_bridge_addr n connected)
            UpTo
            (λ s. Unit)
    run_if_connected-UpTo n false = Triple-pure n (λ s u. u)
    run_if_connected-UpTo n true =
        Triple-bind {Q = λ result. UpTo (next_from n result)} _ _
          (Triple-attempt (λ a s u. u) (λ e s u. u) (λ s u. tt) (run-UpTo n))
          (λ result. Triple-pure _ (λ s u. u))

    rounds-UpTo :
        (rounds n : ℕ)
        → Triple
            (UpTo n)
            (run_with_reconnects env abi l2_erc20_bridge_addr rounds n)
            UpTo
            (λ s. Unit)
    unfolding run_with_reconnects
    rounds-UpTo zero n = Triple-pure n (λ s u. u)
    rounds-UpTo (suc rounds) n =
        Triple-bind {Q = λ c. UpTo n} _ _
          (Triple-imp (λ s u. u) (λ a s u. u) (λ s u. tt)
            (Keeps-call (Reading abi OnChain first n n []) _))
          (λ connected. Triple-bind _ _ (run_if_connected-UpTo n connected) (rounds-UpTo rounds))

-- If the streams of the node have no gaps, then after any number of rounds of the listener on L1,
-- begun at block `first`, it has sent the own event of each log that the chain has in a block from
-- `first` to before the one at which the next round would begin: errors and reconnecting lose none.
pub run_with_reconnects-sends :
    (env : Env) (abi : Abi) (l2_erc20_bridge_addr : ℕ) (OnChain : EthLog → Type 0) (first : ℕ)
    → StreamsAreGapless env abi l2_erc20_bridge_addr OnChain first
    → (rounds next : ℕ) (s u : State)
    → run_with_reconnects env abi l2_erc20_bridge_addr rounds first s ≡ (ok next, u)
    → (log : EthLog) (event : BlockEvent) (b : ℕ) → OnChain log
    → event_in abi log ≡ some event
    → log.block_number ≡ some b
    → first ≤ b
    → b < next
    → Mem event u.sent
run_with_reconnects-sends env abi bridge OnChain first gapless rounds next s u ran log event b c e n
      f l =
    let sent =
      subst (λ r. Post (λ next u. SentBelow abi OnChain first next u.sent) (λ u. Unit {0}) r) ran
        ((Triple-imp (λ s u. u) (λ next s u. u.below_last) (λ s u. u)
            (rounds-UpTo env abi bridge OnChain first gapless rounds first)).at
          s
          record {
            below_from = λ log b c e f l. absurd (omega (arith, f, l));
            below_last = λ log b c e f l. absurd (omega (arith, f, l));
            all_before = λ log m. absurd (not-mem-nil m);
          }) in
    sent log b c n f l event e
