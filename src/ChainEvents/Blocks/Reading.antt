-- ===== src/ChainEvents/Blocks/Reading.antt =====
-- chain-events/src/block_events.rs: what is sent of the logs that a stream gives, up to where reading
-- resumes.
use mathlib.Core.List.{Mem, mem-append, mem-cons, not-mem-nil}
use mathlib.Core.Logic.Or
use mathlib.Core.Logic.{∥∥₁_prop}
use zksync_withdrawal_finali.Common.{
  arith, ℕ, ◌<◌, ◌≤◌, ◌≡◌, subst, ltb, ltb→lt, Bool-cases, inl, inr, Option, none, some, List, [],
  ◌∷◌, ◌++◌, Outcome, ok, err, panic, unwrap_or,
}
use zksync_withdrawal_finali.Watcher.Blocks.{BlockEvent}
use zksync_withdrawal_finali.ChainEvents.World.{EthLog, raw_log, LogQueryError}
use zksync_withdrawal_finali.ChainEvents.Blocks.{Abi}
use zksync_withdrawal_finali.ChainEvents.Blocks.Sending.{own_event, IsSent, IsSent-append, IsKept}

-- What a log of the chain stands for.
abbrev pub event_in : Abi → EthLog → Option BlockEvent
event_in abi log = own_event log.block_number (abi.decode_log (raw_log log))

-- When a stream from a block on gives a log of some block, it has given those of earlier blocks.
-- `before` are the logs that it has given.
abbrev pub IsGapless :
    (EthLog → Type 0) → ℕ → List EthLog → List (Outcome LogQueryError EthLog) → Type 0
IsGapless OnChain from_block before [] = Unit
IsGapless OnChain from_block before (err e ∷ items) = Unit
IsGapless OnChain from_block before (panic ∷ items) = Unit
IsGapless OnChain from_block before (ok log ∷ items) =
    ((earlier : EthLog) (b n : ℕ)
      → OnChain earlier
      → earlier.block_number ≡ some b
      → log.block_number ≡ some n
      → from_block ≤ b
      → b < n
      → Mem earlier before)
    × IsGapless OnChain from_block (before ++ log ∷ []) items

module _ (abi : Abi) (OnChain : EthLog → Type 0) (first : ℕ) where
  -- What the chain logged in the blocks from `first` to before `n` is sent.
  abbrev pub SentBelow : ℕ → List BlockEvent → Type 0
  SentBelow n sent =
      (log : EthLog) (b : ℕ)
      → OnChain log
      → log.block_number ≡ some b
      → first ≤ b
      → b < n
      → IsSent (event_in abi log) sent

  -- A run from `from_block` on has read the logs `before`.
  pub record Reading (from_block last_seen_block : ℕ) (before : List EthLog)
      (sent : List BlockEvent) : Type 0 where
    pub below_from : SentBelow from_block sent
    pub below_last : SentBelow last_seen_block sent
    pub all_before : (log : EthLog) → Mem log before → IsSent (event_in abi log) sent

  pub Reading-IsKept :
      (from_block last_seen_block : ℕ) (before : List EthLog)
      → IsKept (Reading from_block last_seen_block before)
  Reading-IsKept from_block last before event sent r = record {
    below_from =
        λ log b c e f l. IsSent-append (event_in abi log) event sent (r.below_from log b c e f l);
    below_last =
        λ log b c e f l. IsSent-append (event_in abi log) event sent (r.below_last log b c e f l);
    all_before = λ log m. IsSent-append (event_in abi log) event sent (r.all_before log m);
  }

  -- The block of a log is the one seen last when all of earlier blocks is sent.
  pub advance :
      (from_block last : ℕ) (log : EthLog) (block_number : Option ℕ) (before : List EthLog)
      (sent : List BlockEvent)
      → log.block_number ≡ block_number
      → ((earlier : EthLog) (b n : ℕ)
          → OnChain earlier
          → earlier.block_number ≡ some b
          → log.block_number ≡ some n
          → from_block ≤ b
          → b < n
          → Mem earlier before)
      → Reading from_block last before sent
      → Reading from_block (unwrap_or block_number last) before sent
  advance from_block last log none before sent at g r = r
  advance from_block last log (some n) before sent at g r = record {
    below_from = r.below_from;
    below_last = λ earlier b c e f l. elim (Bool-cases (ltb b from_block)) [
      | inl t ↦ r.below_from earlier b c e f (ltb→lt b from_block t)
      | inr t ↦ r.all_before earlier (g earlier b n c e at (ground arith) l)
    ];
    all_before = r.all_before;
  }

  pub also :
      (from_block last : ℕ) (log : EthLog) (before : List EthLog) (sent : List BlockEvent)
      → Reading from_block last before sent
      → IsSent (event_in abi log) sent
      → Reading from_block last (before ++ log ∷ []) sent
  also from_block last log before sent r h = record {
    below_from = r.below_from;
    below_last = r.below_last;
    all_before = λ other m w e.
        Or.elim ∥∥₁_prop (mem-append.0 m) (λ old. r.all_before other old w e)
          (λ new.
            Or.elim ∥∥₁_prop (mem-cons.0 new) (λ q. h w (subst (λ x. event_in abi x ≡ some w) q e))
              (λ nothing. absurd (not-mem-nil nothing)));
  }

  -- A run is over.
  pub start_over :
      (from_block last next : ℕ) (before : List EthLog) (sent : List BlockEvent)
      → SentBelow next sent
      → Reading from_block last before sent
      → Reading next next [] sent
  start_over from_block last next before sent below r = record {
    below_from = below;
    below_last = below;
    all_before = λ log m. absurd (not-mem-nil m);
  }
