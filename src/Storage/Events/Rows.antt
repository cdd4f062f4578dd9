-- ===== src/Storage/Events/Rows.antt =====
-- storage/src/lib.rs: the rows that `l2_to_l1_events` leaves.
use zksync_withdrawal_finali.Common.{
  ◌≡◌, refl, true, false, ◌||◌, Option, none, some, List, [], ◌∷◌, ◌++◌, any, arith, if◌then◌else◌,
  Bool-cases, inl, inr,
}
use zksync_withdrawal_finali.Storage.Tables.{Db, L2ToL1EventRow}
use zksync_withdrawal_finali.Client.Contract.{L2ToL1Event}
use zksync_withdrawal_finali.Storage.Events.{event_row, same_event, add_events, l2_to_l1_events}

-- The first row with the key of another.
abbrev pub event_at : L2ToL1EventRow → List L2ToL1EventRow → Option L2ToL1EventRow
event_at k [] = none
event_at k (r ∷ rs) = if same_event k r then some r else event_at k rs

abbrev pub first_seen : L2ToL1EventRow → List L2ToL1Event → Option L2ToL1EventRow
first_seen k [] = none
first_seen k (e ∷ es) = if same_event k (event_row e) then some (event_row e) else first_seen k es

event_at-append :
    (k r : L2ToL1EventRow) (rows : List L2ToL1EventRow)
    → event_at k (rows ++ r ∷ []) ≡ (
        if any (same_event k) rows
        then event_at k rows
        else if same_event k r
        then some r
        else none)
event_at-append k r [] = refl
event_at-append k r (q ∷ qs) = ground (arith, event_at-append k r qs)

event_at-none :
    (k : L2ToL1EventRow) (rows : List L2ToL1EventRow)
    → any (same_event k) rows ≡ false
    → event_at k rows ≡ none
event_at-none k [] h = refl
event_at-none k (q ∷ qs) h = ground (arith, event_at-none k qs)

any-snoc :
    (k r : L2ToL1EventRow) (rows : List L2ToL1EventRow)
    → any (same_event k) (rows ++ r ∷ []) ≡ (any (same_event k) rows || same_event k r)
any-snoc k r [] = ground arith
any-snoc k r (q ∷ qs) = ground (arith, any-snoc k r qs)

same_event-any :
    (k e : L2ToL1EventRow) (rows : List L2ToL1EventRow)
    → same_event k e ≡ true
    → any (same_event k) rows ≡ any (same_event e) rows
same_event-any k e [] h = refl
same_event-any k e (r ∷ rs) h = ground (arith, same_event-any k e rs)

event_at-add_events :
    (k : L2ToL1EventRow) (events : List L2ToL1Event) (rows : List L2ToL1EventRow)
    → event_at k (add_events events rows)
      ≡ (if any (same_event k) rows then event_at k rows else first_seen k events)
unfolding add_events
event_at-add_events k [] rows = ground (arith, event_at-none k rows)
event_at-add_events k (e ∷ es) rows = elim (Bool-cases (any (same_event (event_row e)) rows)) [
  | inl h ↦
      rw (h, event_at-add_events k es rows) (ground (arith, same_event-any k (event_row e) rows))
  | inr h ↦
      rw (h, event_at-add_events k es (rows ++ event_row e ∷ []))
        (ground (
          arith,
          any-snoc k (event_row e) rows,
          event_at-append k (event_row e) rows,
          event_at-none k rows,
        ))
]

-- For every key (L1 block, L2 block, transaction number): `l2_to_l1_events` keeps the row that the
-- key had; a key that had none gets that of the first of the events with the key, if any.
pub event_at-l2_to_l1_events :
    (db : Db) (events : List L2ToL1Event) (k : L2ToL1EventRow)
    → event_at k (l2_to_l1_events db events).l2_to_l1_events ≡ (
        if any (same_event k) db.l2_to_l1_events
        then event_at k db.l2_to_l1_events
        else first_seen k events)
unfolding l2_to_l1_events
event_at-l2_to_l1_events db events k = event_at-add_events k events db.l2_to_l1_events
