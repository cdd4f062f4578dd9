-- ===== src/Watcher/Withdrawals/Batching.antt =====
-- watcher/src/lib.rs: what the loop over the events of L2 has stored when it ends.
use mathlib.Core.List.{append_assoc, append-nil}
use zksync_withdrawal_finali.Common.{
  arith, ℕ, ◌<◌, ◌≤◌, ◌≡◌, refl, sym, ap, subst, ◌∙◌, Bool, true, false, ◌==◌, if◌then◌else◌, List,
  [], ◌∷◌, ◌++◌, All, Bool-cases, inl, inr, ltb, ==_iff, ltb→lt,
}
use zksync_withdrawal_finali.Common.Actions.{pure}
use zksync_withdrawal_finali.Common.Actions.Hoare.{Post, Triple, Triple-bind, Triple-pure}
use zksync_withdrawal_finali.Client.{WithdrawalEvent}
use zksync_withdrawal_finali.Storage.Withdrawals.{StoredWithdrawal}
use zksync_withdrawal_finali.Watcher.World.{Env, State, Action, act, metered, stored, stored_token}
use zksync_withdrawal_finali.Watcher.Hoare.{Triple-act, Triple-write}
use zksync_withdrawal_finali.Watcher.Withdrawals.{
  L2Event, restarted_from_block, withdrawal, l2_token_init_event, stored_withdrawals,
  process_withdrawals_in_block, Pending, on_higher_block, on_l2_event, read_l2_events,
  run_l2_events_loop,
}
use zksync_withdrawal_finali.Watcher.Withdrawals.Groups.{IsOther}
use zksync_withdrawal_finali.Watcher.Withdrawals.Numbering.{
  stored_of, numbered_after, numbered, last_after, InBlocks, stored_of-append, numbered_after-split,
}

module _ (block_of : ℕ → ℕ) where
  abbrev IsUpTo : ℕ → WithdrawalEvent → Type 0
  IsUpTo curr e = (e.block_number ≤ curr) × (e.block_number ≡ block_of e.tx_hash)

  higher-IsOther :
      (curr : ℕ) (e : WithdrawalEvent) (pending : List WithdrawalEvent)
      → curr < e.block_number
      → e.block_number ≡ block_of e.tx_hash
      → All (IsUpTo curr) pending
      → IsOther e.tx_hash pending
  higher-IsOther curr e [] h b a = tt
  higher-IsOther curr e (f ∷ fs) h b a = (
    elim (Bool-cases (f.tx_hash == e.tx_hash)) [
      | inl t ↦
          let same : f.tx_hash ≡ e.tx_hash = (==_iff f.tx_hash e.tx_hash).0 t in
          let blocks : f.block_number ≡ e.block_number = a.0.1 ∙ ap block_of same ∙ sym b in
          absurd (omega (arith, h, blocks, a.0.0))
      | inr t ↦ t
    ],
    higher-IsOther curr e fs h b a.1,
  )

  not_higher : (curr n : ℕ) → ltb curr n ≡ false → n ≤ curr
  not_higher curr n h = ground arith

  IsUpTo-snoc :
      (curr : ℕ) (e : WithdrawalEvent) (pending : List WithdrawalEvent)
      → All (IsUpTo curr) pending
      → IsUpTo curr e
      → All (IsUpTo curr) (pending ++ e ∷ [])
  IsUpTo-snoc curr e [] a h = (h, tt)
  IsUpTo-snoc curr e (f ∷ fs) a h = (a.0, IsUpTo-snoc curr e fs a.1 h)

  module _ (start : List Action) (all : List L2Event) where
    -- What was stored since the start, then `rest`, is what all events say.
    abbrev pub StoredBut : List StoredWithdrawal → List Action → Type 0
    StoredBut rest trace = stored_of trace ++ rest ≡ stored_of start ++ numbered all

    abbrev Stopped : State → Type 0
    Stopped s = (rest : List StoredWithdrawal) × StoredBut rest s.trace

    -- `remaining` are the events that are not yet read.
    record Reading (remaining : List L2Event) (pending : Pending) (trace : List Action)
        : Type 0 where
      pub up_to : All (IsUpTo pending.0) pending.1
      pub stored_but : StoredBut (numbered_after pending.1 remaining) trace
      pub front : List WithdrawalEvent
      pub last : last_after (front ++ pending.1) remaining ≡ last_after [] all

    store :
        (found rest : List StoredWithdrawal) (trace : List Action)
        → StoredBut (found ++ rest) trace
        → StoredBut rest (trace ++ stored found ∷ [])
    store found rest trace e =
        ap (λ l. l ++ rest)
          (stored_of-append trace (stored found ∷ [])
            ∙ ap (λ l. stored_of trace ++ l) (append-nil found))
        ∙ append_assoc (stored_of trace) found rest
        ∙ e

    -- A step that stores nothing.
    skip :
        (rest : List StoredWithdrawal) (trace : List Action) (a : Action)
        → stored_of (a ∷ []) ≡ []
        → StoredBut rest trace
        → StoredBut rest (trace ++ a ∷ [])
    skip rest trace a h e =
        ap (λ l. l ++ rest)
          (stored_of-append trace (a ∷ [])
            ∙ ap (λ l. stored_of trace ++ l) h
            ∙ append-nil (stored_of trace))
        ∙ e

    module _ (env : Env) (meters : Bool) where
      meter-StoredBut :
          (m : Bool) (found rest : List StoredWithdrawal)
          → Triple
              (λ s. StoredBut rest s.trace)
              (if m then act (metered found) else pure tt)
              (λ t s. StoredBut rest s.trace)
              Stopped
      meter-StoredBut true found rest =
          Triple-act (StoredBut rest) (StoredBut rest)
            (λ t. (rest : List StoredWithdrawal) × StoredBut rest t) _ (λ t e. skip rest t _ refl e)
      meter-StoredBut false found rest = Triple-pure tt (λ s e. e)

      process-StoredBut :
          (pending : List WithdrawalEvent) (rest : List StoredWithdrawal)
          → Triple
              (λ s. StoredBut (stored_withdrawals pending ++ rest) s.trace)
              (process_withdrawals_in_block env meters pending)
              (λ t s. StoredBut rest s.trace)
              Stopped
      unfolding process_withdrawals_in_block
      process-StoredBut pending rest =
          Triple-bind _ _
            (meter-StoredBut meters (stored_withdrawals pending)
              (stored_withdrawals pending ++ rest))
            (λ t.
              Triple-write (StoredBut (stored_withdrawals pending ++ rest)) (StoredBut rest)
                (λ u. (rest : List StoredWithdrawal) × StoredBut rest u) env _ _
                (λ u e. store (stored_withdrawals pending) rest u e)
                (λ u e. (stored_withdrawals pending ++ rest, e)))

      on_higher :
          (curr : ℕ) (pending : List WithdrawalEvent) (e : WithdrawalEvent)
          (remaining : List L2Event)
          → e.block_number ≡ block_of e.tx_hash
          → curr < e.block_number
          → All (IsUpTo curr) pending
          → (front : List WithdrawalEvent)
          → last_after (front ++ pending ++ e ∷ []) remaining ≡ last_after [] all
          → Triple
              (λ s.
                StoredBut (stored_withdrawals pending ++ numbered_after (e ∷ []) remaining) s.trace)
              (on_higher_block env meters pending e)
              (λ next s. Reading remaining next s.trace)
              Stopped
      on_higher curr pending e remaining b h up_to front last =
          Triple-bind {Q = λ t u. StoredBut (numbered_after (e ∷ []) remaining) u.trace} _ _
            (process-StoredBut pending (numbered_after (e ∷ []) remaining))
            (λ t. Triple-pure _ (λ u k. record {
              up_to = (((omega arith), b), tt);
              stored_but = k;
              front = front ++ pending;
              last = last;
            }))

      on_l2_event-Reading :
          (pending : Pending) (event : L2Event) (remaining : List L2Event)
          → InBlocks block_of (event ∷ remaining)
          → Triple
              (λ s. Reading (event ∷ remaining) pending s.trace)
              (on_l2_event env meters pending event)
              (λ next s. Reading remaining next s.trace)
              Stopped
      unfolding on_l2_event
      on_l2_event-Reading (curr, pending) (withdrawal e) remaining b =
          elim (Bool-cases (ltb curr e.block_number)) [
            | inl t ↦ rw t record {
              at = λ s r.
                  (on_higher curr pending e remaining b.0 (ltb→lt curr e.block_number t) r.up_to
                      r.front r.last).at
                    s
                    (subst (λ l. StoredBut l s.trace)
                      (numbered_after-split pending e [] remaining
                        (higher-IsOther curr e pending (ltb→lt curr e.block_number t) b.0 r.up_to))
                      r.stored_but);
            }
            | inr t ↦ rw t (
                Triple-pure _ (λ s r. record {
                  up_to =
                      IsUpTo-snoc curr e pending r.up_to (not_higher curr e.block_number t, b.0);
                  stored_but = r.stored_but;
                  front = r.front;
                  last =
                      ap (λ l. last_after l remaining) (sym (append_assoc r.front pending (e ∷ [])))
                      ∙ r.last;
                }))
          ]
      on_l2_event-Reading (curr, pending) (l2_token_init_event token) remaining b =
          Triple-bind _ _
            (Triple-write (Reading (l2_token_init_event token ∷ remaining) (curr, pending))
              (Reading remaining (curr, pending))
              (λ u. (rest : List StoredWithdrawal) × StoredBut rest u) env _ _
              (λ t r. record {
                up_to = r.up_to;
                stored_but =
                    skip (numbered_after pending remaining) t (stored_token token) refl
                      r.stored_but;
                front = r.front;
                last = r.last;
              })
              (λ t r. (numbered_after pending remaining, r.stored_but)))
            (λ t. Triple-pure _ (λ s r. r))
      on_l2_event-Reading (curr, pending) (restarted_from_block n) remaining b = record {
        at = λ s r.
            (Triple-bind {Q = λ t u. StoredBut (numbered_after [] remaining) u.trace} _ _
                (process-StoredBut pending (numbered_after [] remaining))
                (λ t.
                  Triple-pure _
                    (λ u h. record { up_to = tt; stored_but = h; front = []; last = r.last }))).at
              s r.stored_but;
      }

      InBlocks-rest :
          (event : L2Event) (events : List L2Event)
          → InBlocks block_of (event ∷ events)
          → InBlocks block_of events
      InBlocks-rest (withdrawal e) events b = b.1
      InBlocks-rest (l2_token_init_event token) events b = b
      InBlocks-rest (restarted_from_block n) events b = b

      read_l2_events-Reading :
          (pending : Pending) (events : List L2Event)
          → InBlocks block_of events
          → Triple
              (λ s. Reading events pending s.trace)
              (read_l2_events env meters pending events)
              (λ t s.
                (waiting front : List WithdrawalEvent) × ((last_after [] all ≡ front ++ waiting)
                  × StoredBut (stored_withdrawals waiting) s.trace))
              Stopped
      unfolding read_l2_events
      read_l2_events-Reading pending [] b =
          Triple-pure tt (λ s r. (pending.1, r.front, (sym r.last, r.stored_but)))
      read_l2_events-Reading pending (event ∷ events) b =
          Triple-bind _ _ (on_l2_event-Reading pending event events b)
            (λ next. read_l2_events-Reading next events (InBlocks-rest event events b))

-- If the withdrawals of a transaction are in one block, the loop over the events of L2 has, however
-- it ends, stored the first of the stream's withdrawals, in their order and none left out, each with
-- its number within its transaction since the last restart: the flushes between blocks change
-- neither the order nor a number. If it ends without an error, all are stored but the last ones
-- after the last restart.
pub run_l2_events_loop-in_order :
    (block_of : ℕ → ℕ) (env : Env) (meters : Bool) (from_l2_block : ℕ) (events : List L2Event)
    → InBlocks block_of events
    → (s : State)
    → Post
        (λ t u.
          (waiting front : List WithdrawalEvent) × ((last_after [] events ≡ front ++ waiting)
            × (stored_of u.trace ++ stored_withdrawals waiting
                ≡ stored_of s.trace ++ numbered events)))
        (λ u.
          (rest : List StoredWithdrawal) × (stored_of u.trace ++ rest
            ≡ stored_of s.trace ++ numbered events))
        (run_l2_events_loop env meters from_l2_block events s)
unfolding run_l2_events_loop
run_l2_events_loop-in_order block_of env meters from_l2_block events b s =
    (read_l2_events-Reading block_of s.trace events env meters (from_l2_block, []) events b).at s
      record { up_to = tt; stored_but = refl; front = []; last = refl }
