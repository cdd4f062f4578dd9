-- ===== src/Watcher/Blocks/Tables.antt =====
-- watcher/src/lib.rs: what the loop over the events of L1 leaves in the tables that it alone writes.
use zksync_withdrawal_finali.Common.{
  ℕ, suc, ◌<◌, ◌≡◌, refl, sym, ap, ◌∙◌, subst, Bool, true, false, Option, List, [], ◌∷◌, ◌++◌, map,
  length, Outcome, ok, err, panic, if◌then◌else◌,
}
use zksync_withdrawal_finali.Common.Actions.{pure, lift}
use zksync_withdrawal_finali.Common.Actions.Hoare.{
  Post, Post-imp2, Triple, Triple-bind, Triple-pure, Triple-attempt,
}
use zksync_withdrawal_finali.Storage.Tables.{Db}
use zksync_withdrawal_finali.Storage.Blocks.{
  committed_new_batch, verified_new_batch, executed_new_batch, range, upsert_all,
}
use zksync_withdrawal_finali.Storage.Events
use zksync_withdrawal_finali.Storage.Events.{add_events}
use zksync_withdrawal_finali.Watcher.World.{
  Env, State, M, Error, BlockRangesParams, commit, verify, execute, l2_to_l1_events, Action, wrote,
  metered, stored, stored_token, call, write, run_write,
}
use zksync_withdrawal_finali.Watcher.Blocks.{
  BlockEvent, block_commit, block_execution, blocks_verification, blocks_revert, l2_to_l1, Batch,
  apply_write, request_block_ranges, request_all, write_all, write_to_storage, flatten,
  process_block_events, flush_batch, on_block_event, read_block_events, run_l1_events_loop, is_due,
  batch_size,
}
use zksync_withdrawal_finali.Watcher.Blocks.Ranges.{Answers, written, Wrote}
use zksync_withdrawal_finali.Watcher.Blocks.Order.{run_l1_events_loop-in_order}

-- The two tables that only this loop writes are the same.
abbrev pub SameTables : Db → Db → Type 0
SameTables a b = (a.l2_blocks ≡ b.l2_blocks) × (a.l2_to_l1_events ≡ b.l2_to_l1_events)

-- The tables after the writes, one after the other.
abbrev pub write_tables : List BlockRangesParams → Db → Db
write_tables [] db = db
write_tables (p ∷ ps) db = write_tables ps (apply_write p db)

apply_write-SameTables :
    (p : BlockRangesParams) (a b : Db)
    → SameTables a b
    → SameTables (apply_write p a) (apply_write p b)
unfolding apply_write committed_new_batch verified_new_batch executed_new_batch
    Events.l2_to_l1_events
apply_write-SameTables (commit x y n) a b (e, f) = (ap (upsert_all _ (range x y)) e, f)
apply_write-SameTables (verify x y n) a b (e, f) = (ap (upsert_all _ (range x y)) e, f)
apply_write-SameTables (execute x y n) a b (e, f) = (ap (upsert_all _ (range x y)) e, f)
apply_write-SameTables (l2_to_l1_events es) a b (e, f) = (e, ap (add_events es) f)

write_tables-snoc :
    (ps : List BlockRangesParams) (p : BlockRangesParams) (db : Db)
    → write_tables (ps ++ p ∷ []) db ≡ apply_write p (write_tables ps db)
write_tables-snoc [] p db = refl
write_tables-snoc (q ∷ ps) p db = write_tables-snoc ps p (apply_write q db)

-- The writes of a trace.
abbrev writes_of : List Action → List BlockRangesParams
writes_of [] = []
writes_of (wrote p ∷ t) = p ∷ writes_of t
writes_of (metered found ∷ t) = writes_of t
writes_of (stored found ∷ t) = writes_of t
writes_of (stored_token token ∷ t) = writes_of t

writes_of-snoc :
    (t : List Action) (p : BlockRangesParams)
    → writes_of (t ++ wrote p ∷ []) ≡ writes_of t ++ p ∷ []
writes_of-snoc [] p = refl
writes_of-snoc (wrote q ∷ t) p = ap (λ l. q ∷ l) (writes_of-snoc t p)
writes_of-snoc (metered found ∷ t) p = writes_of-snoc t p
writes_of-snoc (stored found ∷ t) p = writes_of-snoc t p
writes_of-snoc (stored_token token ∷ t) p = writes_of-snoc t p

writes_of-map : (ps : List BlockRangesParams) → writes_of (map wrote ps) ≡ ps
writes_of-map [] = refl
writes_of-map (p ∷ ps) = ap (λ l. p ∷ l) (writes_of-map ps)

-- No other task writes the two tables.
abbrev pub WritesAlone : Env → Type 0
WritesAlone env = (n : ℕ) (db : Db) → SameTables (env.others n db) db

-- A loop that begins.
abbrev pub opening : Db → State
opening db = record { db = db; calls = 0; trace = [] }

module _ (db : Db) where
  abbrev IsWritten : State → Type 0
  IsWritten s = SameTables s.db (write_tables (writes_of s.trace) db)

  abbrev Keeps : {A : Type 0} → M A → Type 0
  Keeps m = Triple IsWritten m (λ a s. IsWritten s) IsWritten

  Post-same :
      {A : Type 0} (o : Outcome Error A) (s : State)
      → IsWritten s
      → Post (λ a u. IsWritten u) IsWritten (o, s)
  Post-same (ok a) s w = w
  Post-same (err e) s w = w
  Post-same panic s w = w

  call-Keeps : {A : Type 0} (answer : ℕ → Outcome Error A) → Keeps (call answer)
  unfolding call
  call-Keeps answer = record {
    at = λ s w. Post-same (answer s.calls) (record s { calls = suc s.calls }) w;
  }

  lift-Keeps : {A : Type 0} (o : Outcome Error A) → Keeps (lift o)
  unfolding lift
  lift-Keeps o = record { at = λ s w. Post-same o s w }

  pure-Keeps : {A : Type 0} (a : A) → Keeps (pure a)
  pure-Keeps a = Triple-pure a (λ s w. w)

  module _ (env : Env) (alone : WritesAlone env) where
    Post-write :
        (fails : Bool) (p : BlockRangesParams) (seen : Db) (s : State)
        → SameTables seen (write_tables (writes_of s.trace) db)
        → Post
            (λ t u. IsWritten u)
            IsWritten
            (run_write fails (wrote p) seen (apply_write p seen) s)
    Post-write true p seen s w = w
    Post-write false p seen s w =
        subst (SameTables (apply_write p seen))
          (sym (
            ap (λ l. write_tables l db) (writes_of-snoc s.trace p)
            ∙ write_tables-snoc (writes_of s.trace) p db))
          (apply_write-SameTables p seen _ w)

    write-Keeps : (p : BlockRangesParams) → Keeps (write_to_storage env p)
    unfolding write_to_storage write
    write-Keeps p = record {
      at = λ s w.
          let same = alone s.calls s.db in
          Post-write (env.connection_fails s.calls) p (env.others s.calls s.db) s
            (same.0 ∙ w.0, same.1 ∙ w.1);
    }

    request_block_ranges-Keeps : (event : BlockEvent) → Keeps (request_block_ranges env event)
    unfolding request_block_ranges
    request_block_ranges-Keeps (block_commit n event) =
        Triple-bind _ _ (lift-Keeps _) (λ b. Triple-bind _ _ (call-Keeps _) (λ r. pure-Keeps _))
    request_block_ranges-Keeps (block_execution n event) =
        Triple-bind _ _ (lift-Keeps _) (λ b. Triple-bind _ _ (call-Keeps _) (λ r. pure-Keeps _))
    request_block_ranges-Keeps (blocks_verification n event) = Triple-bind _ _ (lift-Keeps _) (λ a.
        Triple-bind _ _ (lift-Keeps _) (λ b.
          Triple-bind _ _ (call-Keeps _) (λ f. Triple-bind _ _ (call-Keeps _) (λ l. pure-Keeps _))))
    request_block_ranges-Keeps (blocks_revert n event) = pure-Keeps _
    request_block_ranges-Keeps (l2_to_l1 events) = pure-Keeps _

    request_all-Keeps : (events : List BlockEvent) → Keeps (request_all env events)
    unfolding request_all
    request_all-Keeps [] = pure-Keeps _
    request_all-Keeps (event ∷ events) =
        Triple-bind _ _
          (Triple-attempt (λ a u w. w) (λ e u w. w) (λ u w. w) (request_block_ranges-Keeps event))
          (λ o. Triple-bind _ _ (request_all-Keeps events) (λ os. pure-Keeps _))

    write_all-Keeps : (ps : List BlockRangesParams) → Keeps (write_all env ps)
    unfolding write_all
    write_all-Keeps [] = pure-Keeps _
    write_all-Keeps (p ∷ ps) = Triple-bind _ _ (write-Keeps p) (λ t. write_all-Keeps ps)

    process_block_events-Keeps :
        (events : List BlockEvent) → Keeps (process_block_events env events)
    unfolding process_block_events
    process_block_events-Keeps events =
        Triple-bind _ _ (request_all-Keeps events)
          (λ os. Triple-bind _ _ (lift-Keeps _) (λ rs. write_all-Keeps (flatten rs)))

    flush-Keeps :
        (due : Bool) (batch : List BlockEvent) (begin : ℕ)
        → Keeps (if due then flush_batch env batch else pure (batch, begin))
    flush-Keeps true batch begin =
        Triple-bind _ _ (process_block_events-Keeps batch)
          (λ t. Triple-bind _ _ (call-Keeps _) (λ now. pure-Keeps _))
    flush-Keeps false batch begin = pure-Keeps _

    read_block_events-Keeps :
        (batch : Batch) (events : List BlockEvent) → Keeps (read_block_events env batch events)
    unfolding read_block_events on_block_event
    read_block_events-Keeps batch [] = pure-Keeps _
    read_block_events-Keeps batch (event ∷ events) =
        Triple-bind _ _
          (Triple-bind _ _ (call-Keeps _) (λ now.
            flush-Keeps (is_due (batch.0 ++ event ∷ []) batch.1 now) (batch.0 ++ event ∷ [])
              batch.1))
          (λ next. read_block_events-Keeps next events)

    run_l1_events_loop-Keeps : (events : List BlockEvent) → Keeps (run_l1_events_loop env events)
    unfolding run_l1_events_loop
    run_l1_events_loop-Keeps events =
        Triple-bind _ _ (call-Keeps _) (λ begin. read_block_events-Keeps ([], begin) events)

  restated :
      (ps : List BlockRangesParams) (u : State)
      → Wrote [] ps u.trace
      → IsWritten u
      → SameTables u.db (write_tables ps db)
  restated ps u w h =
      subst (λ l. SameTables u.db (write_tables l db)) (ap writes_of w ∙ writes_of-map ps) h

-- If the node gives the same ranges whenever it answers and no other task writes the tables of the
-- blocks and of the events on L1, the loop over the events of L1 leaves these tables, however it
-- ends, as the first of the events say, written one after the other in their order; if it ends
-- without an error, only the last events are missing, fewer than 1024. Batches, and the moments at
-- which they are written, make no difference.
pub run_l1_events_loop-tables :
    (env : Env) (ranges : ℕ → Option (ℕ × ℕ))
    → Answers env ranges
    → WritesAlone env
    → (events : List BlockEvent) (db : Db)
    → Post
        (λ t u.
          (done waiting : List BlockEvent) × ((events ≡ done ++ waiting)
            × (length waiting < batch_size)
            × SameTables u.db (write_tables (written ranges done) db)))
        (λ u.
          (done rest : List BlockRangesParams) × ((written ranges events ≡ done ++ rest)
            × SameTables u.db (write_tables done db)))
        (run_l1_events_loop env events (opening db))
run_l1_events_loop-tables env ranges answers alone events db =
    Post-imp2 (run_l1_events_loop env events (opening db))
      (λ t u h k. (h.1.0, h.0, (h.1.1.0, h.1.1.1, restated db (written ranges h.1.0) u h.1.1.2 k)))
      (λ u h k. (h.0, h.1, (h.2.0, restated db h.0 u h.2.1 k)))
      (run_l1_events_loop-in_order env ranges answers events (opening db))
      ((run_l1_events_loop-Keeps db env alone events).at (opening db) (refl, refl))
