-- ===== src/ChainEvents/Withdrawals/Reading.antt =====
-- chain-events/src/l2_events.rs: what is sent of the logs that a stream gives, up to where reading
-- resumes.
use mathlib.Core.List.{Mem, mem-append, mem-append_left, not-mem-nil, mem-cons}
use mathlib.Core.Logic.Or
use mathlib.Core.Logic.{∥∥₁_prop}
use zksync_withdrawal_finali.Common.{
  arith, ℕ, ◌<◌, ◌≤◌, ◌≡◌, subst, All, Option, none, some, List, [], ◌∷◌, ◌++◌, Bool-cases, inl,
  inr, Outcome, ok, err, panic, contains, unwrap_or, ltb, ltb→lt,
}
use zksync_withdrawal_finali.Client.{WithdrawalEvent}
use zksync_withdrawal_finali.Watcher.Withdrawals.{
  L2Event, withdrawal, l2_token_init_event, restarted_from_block,
}
use zksync_withdrawal_finali.ChainEvents.World.{EthLog, LogQueryError}
use zksync_withdrawal_finali.ChainEvents.Withdrawals.{with_token, Abi}
use zksync_withdrawal_finali.ChainEvents.Withdrawals.Keeping.{IsKept}
use zksync_withdrawal_finali.ChainEvents.Withdrawals.Covering.{withdrawal_in, IsSent, IsSent-append}

-- When a stream from a block on gives a log of some block, it has given those of the withdrawals of
-- earlier blocks, if their contracts are among the addresses. `before` are the logs that it has
-- given.
abbrev pub IsGapless :
    Abi
    → (EthLog → Type 0)
    → List ℕ
    → ℕ
    → List EthLog
    → List (Outcome LogQueryError EthLog)
    → Type 0
IsGapless abi OnChain addresses from_block before [] = Unit
IsGapless abi OnChain addresses from_block before (err e ∷ items) = Unit
IsGapless abi OnChain addresses from_block before (panic ∷ items) = Unit
IsGapless abi OnChain addresses from_block before (ok log ∷ items) =
    ((earlier : EthLog) (w : WithdrawalEvent) (b block_number : ℕ)
      → OnChain earlier
      → Mem earlier.address addresses
      → withdrawal_in abi earlier ≡ some w
      → earlier.block_number ≡ some b
      → log.block_number ≡ some block_number
      → from_block ≤ b
      → b < block_number
      → Mem earlier before)
    × OnChain log
    × IsGapless abi OnChain addresses from_block (before ++ log ∷ []) items

-- A withdrawal comes from a log of the chain.
abbrev pub ComesFrom : Abi → (EthLog → Type 0) → L2Event → Type 0
ComesFrom abi OnChain (withdrawal w) =
    ∥ ((log : EthLog) × OnChain log × (withdrawal_in abi log ≡ some w)) ∥₁
ComesFrom abi OnChain (l2_token_init_event token) = Unit
ComesFrom abi OnChain (restarted_from_block n) = Unit

All-snoc :
    (P : L2Event → Type 0) (sent : List L2Event) (event : L2Event)
    → All P sent
    → P event
    → All P (sent ++ event ∷ [])
All-snoc P [] event a p = (p, tt)
All-snoc P (e ∷ es) event a p = (a.0, All-snoc P es event a.1 p)

with_token-mem :
    (address : ℕ) {a : ℕ} (tokens : List ℕ) → Mem a tokens → Mem a (with_token address tokens)
with_token-mem address tokens m = elim (Bool-cases (contains address tokens)) [
  | inl t ↦ rw t m
  | inr t ↦ rw t (mem-append_left (address ∷ []) m)
]

module _ (abi : Abi) (OnChain : EthLog → Type 0) (known : List ℕ) (first : ℕ) where
  -- The withdrawals of the chain in the blocks from `first` to before `n` are sent.
  abbrev pub SentBelow : ℕ → List L2Event → Type 0
  SentBelow n sent =
      (log : EthLog) (b : ℕ)
      → OnChain log
      → Mem log.address known
      → log.block_number ≡ some b
      → first ≤ b
      → b < n
      → IsSent (withdrawal_in abi log) sent

  -- A run from `from_block` on has read the logs `before`.
  pub record Reading (from_block last_seen_block : ℕ) (before : List EthLog) (tokens : List ℕ)
      (sent : List L2Event) : Type 0 where
    pub in_tokens : (a : ℕ) → Mem a known → Mem a tokens
    pub sound : All (ComesFrom abi OnChain) sent
    pub below_from : SentBelow from_block sent
    pub below_last : SentBelow last_seen_block sent
    pub all_before : (log : EthLog) → Mem log before → IsSent (withdrawal_in abi log) sent

  module _ {from_block last_seen_block : ℕ} {before : List EthLog} where
    pub Reading-IsKept : IsKept (ComesFrom abi OnChain) (Reading from_block last_seen_block before)
    Reading-IsKept = record {
      token_ok = λ token. tt;
      restart_ok = λ n. tt;
      on_token = λ address tokens sent r. record {
        in_tokens = λ a m. with_token-mem address tokens (r.in_tokens a m);
        sound = r.sound;
        below_from = r.below_from;
        below_last = r.below_last;
        all_before = r.all_before;
      };
      on_event = λ event tokens sent o r. record {
        in_tokens = r.in_tokens;
        sound = All-snoc (ComesFrom abi OnChain) sent event r.sound o;
        below_from = λ log b c k e f l.
            IsSent-append (withdrawal_in abi log) event sent (r.below_from log b c k e f l);
        below_last = λ log b c k e f l.
            IsSent-append (withdrawal_in abi log) event sent (r.below_last log b c k e f l);
        all_before = λ log m. IsSent-append (withdrawal_in abi log) event sent (r.all_before log m);
      };
    }

    -- Forgetting the logs of the run.
    pub Reading-over :
        {tokens : List ℕ} {sent : List L2Event}
        → Reading from_block last_seen_block before tokens sent
        → Reading from_block last_seen_block [] tokens sent
    Reading-over r = record {
      in_tokens = r.in_tokens;
      sound = r.sound;
      below_from = r.below_from;
      below_last = r.below_last;
      all_before = λ log m. absurd (not-mem-nil m);
    }

    -- The next run begins where this one ends.
    pub Reading-last :
        {tokens : List ℕ} {sent : List L2Event}
        → Reading from_block last_seen_block before tokens sent
        → Reading last_seen_block last_seen_block [] tokens sent
    Reading-last r = record {
      in_tokens = r.in_tokens;
      sound = r.sound;
      below_from = r.below_last;
      below_last = r.below_last;
      all_before = λ log m. absurd (not-mem-nil m);
    }

    -- An error leaves the run where it began.
    pub Reading-again :
        {tokens : List ℕ} {sent : List L2Event}
        → Reading from_block last_seen_block before tokens sent
        → Reading from_block from_block [] tokens sent
    Reading-again r = record {
      in_tokens = r.in_tokens;
      sound = r.sound;
      below_from = r.below_from;
      below_last = r.below_from;
      all_before = λ log m. absurd (not-mem-nil m);
    }

  module _ (from_block : ℕ) where
    -- The block of a log is the one seen last when all of earlier blocks is sent.
    pub advance :
        (log : EthLog) (last_seen_block : ℕ) (before : List EthLog) (block_number : Option ℕ)
        → log.block_number ≡ block_number
        → ((earlier : EthLog) (w : WithdrawalEvent) (b n : ℕ)
            → OnChain earlier
            → Mem earlier.address known
            → withdrawal_in abi earlier ≡ some w
            → earlier.block_number ≡ some b
            → log.block_number ≡ some n
            → from_block ≤ b
            → b < n
            → Mem earlier before)
        → (tokens : List ℕ) (sent : List L2Event)
        → Reading from_block last_seen_block before tokens sent
        → Reading from_block (unwrap_or block_number last_seen_block) before tokens sent
    advance log last_seen_block before none e g tokens sent r = r
    advance log last_seen_block before (some n) e g tokens sent r = record {
      in_tokens = r.in_tokens;
      sound = r.sound;
      below_from = r.below_from;
      below_last = λ earlier b c k h f l w v. elim (Bool-cases (ltb b from_block)) [
        | inl t ↦ r.below_from earlier b c k h f (ltb→lt b from_block t) w v
        | inr t ↦ r.all_before earlier (g earlier w b n c k v h e (ground arith) l) w v
      ];
      all_before = r.all_before;
    }

    pub also :
        (log : EthLog) (last_seen_block : ℕ) (before : List EthLog) (tokens : List ℕ)
        (sent : List L2Event)
        → Reading from_block last_seen_block before tokens sent
        → IsSent (withdrawal_in abi log) sent
        → Reading from_block last_seen_block (before ++ log ∷ []) tokens sent
    also log last_seen_block before tokens sent r h = record {
      in_tokens = r.in_tokens;
      sound = r.sound;
      below_from = r.below_from;
      below_last = r.below_last;
      all_before = λ other m w e.
          Or.elim ∥∥₁_prop (mem-append.0 m) (λ old. r.all_before other old w e)
            (λ new.
              Or.elim ∥∥₁_prop (mem-cons.0 new)
                (λ q. h w (subst (λ x. withdrawal_in abi x ≡ some w) q e))
                (λ nothing. absurd (not-mem-nil nothing)));
    }
