-- ===== src/ChainEvents/Withdrawals/Rounds.antt =====
-- chain-events/src/l2_events.rs: no withdrawal is lost between the rounds of the listener.
use mathlib.Core.List.{Mem, mem-append_left, not-mem-nil}
use zksync_withdrawal_finali.Common.{
  arith, subst, All, ℕ, zero, suc, ◌≡◌, refl, Bool, true, false, List, [], ◌∷◌, ◌++◌, Outcome, ok,
  err, panic, unwrap_or,
}
use zksync_withdrawal_finali.Common.Actions.Hoare.{
  Triple, Given, Triple-bind_given, Post, Triple-attempt, Triple-bind, Triple-pure, Triple-lift,
  Triple-imp,
}
use zksync_withdrawal_finali.ChainEvents.World.{EthLog, raw_log, LogQueryError}
use zksync_withdrawal_finali.ChainEvents.Withdrawals.{
  RunResult, attempt_pagination_increase, other_error, should_attempt_pagination_increase, call,
  get_tokens, Abi, Env, State, M,
}
use zksync_withdrawal_finali.ChainEvents.Withdrawals.Run.{
  unless, process_decoded, read_logs, run, Resume, resume, run_if_connected, rounds,
  run_with_reconnects,
}
use zksync_withdrawal_finali.ChainEvents.Withdrawals.Keeping.{
  In, Keeps-call, Keeps-lift, Keeps-past_tokens, Keeps-send,
}
use zksync_withdrawal_finali.ChainEvents.Withdrawals.Covering.{
  withdrawal_in, SentOrOver, process_decoded-Sent,
}
use zksync_withdrawal_finali.ChainEvents.Withdrawals.Reading.{
  SentBelow, ComesFrom, Reading-last, IsGapless, Reading, Reading-IsKept, Reading-over,
  Reading-again, advance, also,
}

module _ (abi : Abi) (env : Env) (OnChain : EthLog → Type 0) (known : List ℕ) (first : ℕ) where
  module _ (from_block : ℕ) where
    -- All is sent up to the block seen last, with `before` of the logs of this run.
    abbrev At : ℕ → List EthLog → State → Type 0
    At last_seen_block before =
        In (Reading abi OnChain known first from_block last_seen_block before)

    abbrev Over : ℕ × RunResult → State → Type 0
    Over result = At result.0 []

    abbrev Stopped : State → Type 0
    Stopped = At from_block []

    unless-Over :
        {P : State → Type 0} (over : Bool) (result : ℕ × RunResult) (m : M (ℕ × RunResult))
        → ((s : State) → over ≡ true → P s → Over result s)
        → (over ≡ false → Triple P m Over Stopped)
        → Triple P (unless over result m) Over Stopped
    unless-Over true result m t f = Triple-pure result (λ s p. t s refl p)
    unless-Over false result m t f = f refl

    pub read_logs-Over :
        (step successful_logs last_seen_block : ℕ) (before : List EthLog)
        (items : List (Outcome LogQueryError EthLog))
        → (addresses : List ℕ) → ((a : ℕ) → Mem a known → Mem a addresses)
        → IsGapless abi OnChain addresses from_block before items
        → Triple
            (At last_seen_block before)
            (read_logs abi env step successful_logs last_seen_block items)
            Over
            Stopped
    unfolding read_logs
    read_logs-Over step n last before [] addresses within g =
        Triple-pure _ (λ s r. Reading-over abi OnChain known first r)
    read_logs-Over step n last before (err e ∷ items) addresses within g =
        Triple-pure _ (λ s r. Reading-over abi OnChain known first r)
    read_logs-Over step n last before (panic ∷ items) addresses within g =
        Triple-lift panic (λ a s e r. cc) (λ s r. Reading-again abi OnChain known first r)
    read_logs-Over step n last before (ok log ∷ items) addresses within g =
        unless-Over (should_attempt_pagination_increase step (suc n))
          (last, attempt_pagination_increase) _ (λ s t r. Reading-over abi OnChain known first r)
          (λ f.
            Triple-bind
              {Q = SentOrOver (Reading-IsKept abi OnChain known first) abi env
                (withdrawal_in abi log)}
              (process_decoded abi env log (abi.decode_log (raw_log log))) _
              (Triple-imp (λ s r. r) (λ over s h. h)
                (λ s r. Reading-again abi OnChain known first r)
                (process_decoded-Sent (Reading-IsKept abi OnChain known first) abi env log
                  (abi.decode_log (raw_log log)) (λ w e. ∣ (log, g.1, e) ∣₁)))
              (λ over.
                unless-Over over (unwrap_or log.block_number last, other_error) _
                  (λ s t h. Reading-over abi OnChain known first (
                    advance abi OnChain known first from_block log last before log.block_number refl
                      (λ earlier w b m c k. g.0 earlier w b m c (within earlier.address k)) s.tokens
                      s.sent h.0))
                  (λ f.
                    Triple-imp
                      (λ s h.
                        also abi OnChain known first from_block log
                          (unwrap_or log.block_number last) before s.tokens s.sent
                          (advance abi OnChain known first from_block log last before
                            log.block_number refl
                            (λ earlier w b m c k. g.0 earlier w b m c (within earlier.address k))
                            s.tokens s.sent h.0)
                          (h.1 f))
                      (λ r s o. o) (λ s o. o)
                      (read_logs-Over step (suc n) (unwrap_or log.block_number last)
                        (before ++ log ∷ []) items addresses within g.2))))

  abbrev UpTo : ℕ → State → Type 0
  UpTo n = At n n []

  -- What the listener asks the node for, it gets without gaps.
  abbrev pub StreamsAreGapless : Type 0
  StreamsAreGapless =
      (n from_block to_block : ℕ) (addresses : List ℕ) (step : ℕ)
      → IsGapless abi OnChain addresses from_block []
          (env.logs n from_block to_block addresses step)

  module _ (gapless : StreamsAreGapless) (deployers : List ℕ) where
    Triple-get_tokens :
        (n : ℕ)
        → Triple
            (UpTo n)
            get_tokens
            (Given (UpTo n) (λ tokens. (a : ℕ) → Mem a known → Mem a tokens))
            (UpTo n)
    unfolding get_tokens
    Triple-get_tokens n = record { at = λ s r. (r, r.in_tokens) }

    Triple-ask :
        {A : Type 0} (n : ℕ) (answer : ℕ → A)
        → Triple
            (UpTo n)
            (call (λ k. ok (answer k)))
            (Given (UpTo n) (λ a. (k : ℕ) × (answer k ≡ a)))
            (UpTo n)
    unfolding call
    Triple-ask n answer = record { at = λ s r. (r, (s.calls, refl)) }

    run-Over :
        (n last_seen_l2_token_block step : ℕ)
        → Triple (UpTo n) (run abi env deployers n last_seen_l2_token_block step) (Over n) (UpTo n)
    unfolding run
    run-Over n last_token step =
        Triple-bind _ _ (Keeps-call (Reading abi OnChain known first n n []) env.latest_block)
          (λ answer.
            Triple-bind _ _ (Keeps-lift (Reading abi OnChain known first n n []) _) (λ block.
              Triple-bind _ _ (Keeps-lift (Reading abi OnChain known first n n []) _) (λ latest.
                Triple-bind _ _
                  (Keeps-past_tokens (Reading abi OnChain known first n n [])
                    (Reading-IsKept abi OnChain known first) abi env deployers n last_token latest)
                  (λ t. Triple-bind_given _ _ (Triple-get_tokens n) (λ tokens within.
                    Triple-bind _ _ (Keeps-call (Reading abi OnChain known first n n []) _) (λ t.
                      Triple-bind_given _ _ (Triple-ask n _) (λ items found.
                        read_logs-Over n step 0 n [] items (tokens ++ deployers)
                          (λ a m. mem-append_left deployers (within a m))
                          (subst (IsGapless abi OnChain (tokens ++ deployers) n []) found.1
                            (gapless found.0 n latest (tokens ++ deployers) step)))))))))

    abbrev Stop : State → Type 0
    Stop s = All (ComesFrom abi OnChain) s.sent

    run_if_connected-UpTo :
        (r : Resume) (connected : Bool)
        → Triple
            (UpTo r.from_block)
            (run_if_connected abi env deployers r connected)
            (λ next. UpTo next.from_block)
            Stop
    run_if_connected-UpTo r false = Triple-pure r (λ s u. u)
    run_if_connected-UpTo r true =
        Triple-bind {Q = λ result. UpTo (resume r result).from_block} _ _
          (Triple-attempt (λ result s u. Reading-last abi OnChain known first u) (λ e s u. u)
            (λ s u. u.sound) (run-Over r.from_block r.last_seen_l2_token_block r.pagination))
          (λ result.
            Triple-bind _ _
              (Triple-imp (λ s u. u) (λ t s u. u) (λ s u. u.sound)
                (Keeps-send _ (Reading-IsKept abi OnChain known first) env _ tt))
              (λ t. Triple-pure (resume r result) (λ s u. u)))

    rounds-UpTo :
        (n : ℕ) (r : Resume)
        → Triple
            (UpTo r.from_block)
            (rounds abi env deployers n r)
            (λ next. UpTo next.from_block)
            Stop
    unfolding rounds
    rounds-UpTo zero r = Triple-pure r (λ s u. u)
    rounds-UpTo (suc n) r =
        Triple-bind _ _
          (Triple-imp (λ s u. u) (λ c s u. u) (λ s u. u.sound)
            (Keeps-call (Reading abi OnChain known first r.from_block r.from_block []) _))
          (λ connected.
            Triple-bind _ _ (run_if_connected-UpTo r connected) (λ next. rounds-UpTo n next))

    pub run_with_reconnects_complete :
        (n last_seen_l2_token_block calls : ℕ)
        → Post
            (λ next s.
              SentBelow abi OnChain known first next.from_block s.sent
              × All (ComesFrom abi OnChain) s.sent)
            (λ s. All (ComesFrom abi OnChain) s.sent)
            (run_with_reconnects abi env deployers n first last_seen_l2_token_block
              record { calls = calls; tokens = known; sent = [] })
    unfolding run_with_reconnects
    run_with_reconnects_complete n last_token calls =
        (Triple-imp (λ s u. u) (λ next s u. (u.below_last, u.sound)) (λ s h. h)
            (rounds-UpTo n _)).at
          _
          record {
            in_tokens = λ a m. m;
            sound = tt;
            below_from = λ log b c k e f l. absurd (omega (arith, f, l));
            below_last = λ log b c k e f l. absurd (omega (arith, f, l));
            all_before = λ log m. absurd (not-mem-nil m);
          }
