-- ===== src/Watcher/Blocks/Order.antt =====
-- watcher/src/lib.rs: what the loop over the events of L1 has written when it ends.
use mathlib.Core.List.{append_assoc, append-nil, map-append}
use zksync_withdrawal_finali.Common.{
  arith, ℕ, ◌<◌, ◌≡◌, refl, sym, ap, ◌∙◌, false, Option, none, some, List, [], ◌∷◌, ◌++◌, map,
  length, Bool-cases, inl, inr,
}
use zksync_withdrawal_finali.Common.Actions.Hoare.{
  Post, Triple, Triple-bind, Triple-imp, Triple-pure, Triple-bind_given,
}
use zksync_withdrawal_finali.Watcher.World.{Env, State, BlockRangesParams, Action, wrote}
use zksync_withdrawal_finali.Watcher.Hoare.{Triple-call}
use zksync_withdrawal_finali.Watcher.Blocks.{
  BlockEvent, Batch, flatten, is_due, flush_batch, on_block_event, read_block_events,
  run_l1_events_loop, batch_size,
}
use zksync_withdrawal_finali.Watcher.Blocks.Ranges.{
  Answers, range_of, written, Wrote, Began, process_block_events-Wrote,
}

due-short :
    (batch : List BlockEvent) (begin now : ℕ)
    → is_due batch begin now ≡ false
    → length batch < batch_size
due-short batch begin now e = ground arith

flatten-append :
    (os us : List (Option BlockRangesParams)) → flatten (os ++ us) ≡ flatten os ++ flatten us
flatten-append [] us = refl
flatten-append (none ∷ os) us = flatten-append os us
flatten-append (some p ∷ os) us = ap (λ l. p ∷ l) (flatten-append os us)

module _ (ranges : ℕ → Option (ℕ × ℕ)) (start : List Action) (all : List BlockEvent) where
  written-append :
      (es fs : List BlockEvent) → written ranges (es ++ fs) ≡ written ranges es ++ written ranges fs
  written-append es fs =
      ap flatten (map-append (range_of ranges) es fs)
      ∙ flatten-append (map (range_of ranges) es) (map (range_of ranges) fs)

  -- All events but the last ones, fewer than a batch, have been written.
  abbrev pub WroteAllBut : List BlockEvent → List Action → Type 0
  WroteAllBut waiting trace =
      (done : List BlockEvent) × ((all ≡ done ++ waiting)
        × (length waiting < batch_size)
        × Wrote start (written ranges done) trace)

  abbrev Stopped : State → Type 0
  Stopped s = Began start (written ranges all) s.trace

  -- `remaining` are the events after the batch.
  abbrev Reading : List BlockEvent → Batch → List Action → Type 0
  Reading remaining batch trace =
      (done : List BlockEvent) × ((all ≡ done ++ batch.0 ++ remaining)
        × (length batch.0 < batch_size)
        × Wrote start (written ranges done) trace)

  regroup :
      (done batch remaining : List BlockEvent)
      → all ≡ done ++ batch ++ remaining
      → written ranges all ≡ written ranges done ++ written ranges batch ++ written ranges remaining
  regroup done batch remaining e =
      ap (written ranges) e
      ∙ written-append (done ++ batch) remaining
      ∙ ap (λ l. l ++ written ranges remaining) (written-append done batch)

  begun :
      (remaining : List BlockEvent) (batch : Batch) {trace : List Action}
      → Reading remaining batch trace
      → Began start (written ranges all) trace
  begun remaining batch (done, r) = (
    written ranges done,
    written ranges (batch.0 ++ remaining),
    (
      ap (written ranges) (r.0 ∙ append_assoc done batch.0 remaining)
          ∙ written-append done (batch.0 ++ remaining),
      r.2,
    ),
  )

module _ (env : Env) (ranges : ℕ → Option (ℕ × ℕ)) (answers : Answers env ranges)
    (start : List Action) (all : List BlockEvent) where
  flush_batch-Reading :
      (done batch remaining : List BlockEvent)
      → all ≡ done ++ batch ++ remaining
      → Triple
          (λ s. Wrote start (written ranges done) s.trace)
          (flush_batch env batch)
          (λ b s. Reading ranges start all remaining b s.trace)
          (Stopped ranges start all)
  flush_batch-Reading done batch remaining e =
      Triple-bind {Q = λ t s. Wrote start now_done s.trace} _ _
        (process_block_events-Wrote env start (written ranges all) ranges answers
          (written ranges done) batch (written ranges remaining) whole)
        (λ t.
          Triple-bind_given _ _
            (Triple-imp (λ s w. w) (λ n s h. h)
              (λ s w. (now_done, written ranges remaining, (whole, w)))
              (Triple-call (Wrote start now_done) _))
            (λ now h. Triple-pure _ (λ s w. (
              done ++ batch,
              (
                e ∙ ap (λ l. l ++ remaining) (sym (append-nil (done ++ batch))),
                (omega arith),
                w
                    ∙ ap (λ l. start ++ map wrote l)
                        (sym (written-append ranges start all done batch)),
              ),
            ))))
    where
      now_done : List BlockRangesParams
      now_done = written ranges done ++ written ranges batch

      whole : written ranges all ≡ now_done ++ written ranges remaining
      whole = regroup ranges start all done batch remaining e

  on_block_event-Reading :
      (batch : Batch) (event : BlockEvent) (remaining : List BlockEvent)
      → Triple
          (λ s. Reading ranges start all (event ∷ remaining) batch s.trace)
          (on_block_event env batch event)
          (λ b s. Reading ranges start all remaining b s.trace)
          (Stopped ranges start all)
  unfolding on_block_event
  on_block_event-Reading batch event remaining =
      Triple-bind_given _ _
        (Triple-imp (λ s r. r) (λ n s h. h)
          (λ s r. begun ranges start all (event ∷ remaining) batch r)
          (Triple-call (Reading ranges start all (event ∷ remaining) batch) _))
        (λ now h. elim (Bool-cases (is_due (batch.0 ++ event ∷ []) batch.1 now)) [
          | inl e ↦ rw e record {
            at = λ s r.
                (flush_batch-Reading r.0 (batch.0 ++ event ∷ []) remaining (moved r.0 r.1.0)).at s
                  r.1.2;
          }
          | inr e ↦ rw e (
              Triple-pure _ (λ s r.
                (r.0, (moved r.0 r.1.0, due-short (batch.0 ++ event ∷ []) batch.1 now e, r.1.2))))
        ])
    where
      moved :
          (done : List BlockEvent)
          → all ≡ done ++ batch.0 ++ event ∷ remaining
          → all ≡ done ++ (batch.0 ++ event ∷ []) ++ remaining
      moved done e =
          e
          ∙ sym (append_assoc (done ++ batch.0) (event ∷ []) remaining)
          ∙ ap (λ l. l ++ remaining) (append_assoc done batch.0 (event ∷ []))

  read_block_events-Reading :
      (batch : Batch) (events : List BlockEvent)
      → Triple
          (λ s. Reading ranges start all events batch s.trace)
          (read_block_events env batch events)
          (λ t s. (waiting : List BlockEvent) × WroteAllBut ranges start all waiting s.trace)
          (Stopped ranges start all)
  unfolding read_block_events
  read_block_events-Reading batch [] =
      Triple-pure tt (λ s r. (batch.0, (r.0, (r.1.0 ∙ append-nil (r.0 ++ batch.0), r.1.1, r.1.2))))
  read_block_events-Reading batch (event ∷ events) =
      Triple-bind _ _ (on_block_event-Reading batch event events)
        (λ next. read_block_events-Reading next events)

-- If the node gives the same ranges whenever it answers, the loop over the events of L1 has, however
-- it ends, written what the first of the events say, in their order, none left out and none twice,
-- whatever fails and whatever the other tasks do; if it ends without an error, it has written what
-- all events say but the last ones, fewer than 1024.
pub run_l1_events_loop-in_order :
    (env : Env) (ranges : ℕ → Option (ℕ × ℕ))
    → Answers env ranges
    → (events : List BlockEvent) (s : State)
    → Post
        (λ t u. (waiting : List BlockEvent) × WroteAllBut ranges s.trace events waiting u.trace)
        (λ u. Began s.trace (written ranges events) u.trace)
        (run_l1_events_loop env events s)
unfolding run_l1_events_loop
run_l1_events_loop-in_order env ranges answers events s =
    (Triple-bind_given _ _
        (Triple-imp (λ u r. r) (λ n u h. h) (λ u r. begun ranges s.trace events events ([], 0) r)
          (Triple-call (Reading ranges s.trace events events ([], 0)) _))
        (λ begin h.
          read_block_events-Reading env ranges answers s.trace events ([], begin) events)).at
      s ([], (refl, (omega arith), sym (append-nil s.trace)))
