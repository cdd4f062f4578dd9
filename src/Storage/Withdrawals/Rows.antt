-- ===== src/Storage/Withdrawals/Rows.antt =====
-- storage/src/lib.rs: the rows that `add_withdrawals` leaves.
use zksync_withdrawal_finali.Common.{
  ℕ, ◌+◌, ◌<◌, ◌≡◌, refl, Bool, true, false, ◌||◌, Option, none, some, List, [], ◌∷◌, ◌++◌, any,
  arith, ◌==◌, if◌then◌else◌, Bool-cases, inl, inr,
}
use zksync_withdrawal_finali.Client.{WithdrawalKey}
use zksync_withdrawal_finali.Storage.Tables.{Db, WithdrawalRow}
use zksync_withdrawal_finali.Storage.Withdrawals.{
  StoredWithdrawal, at_key, stored_key, new_row, add_rows, add_withdrawals, next_after,
}

abbrev pub row_key : WithdrawalRow → WithdrawalKey
row_key r = record { tx_hash = r.tx_hash; event_index_in_tx = r.event_index_in_tx }

-- The first row with the key.
abbrev pub row_at : WithdrawalKey → List WithdrawalRow → Option WithdrawalRow
row_at k [] = none
row_at k (r ∷ rs) = if at_key k r then some r else row_at k rs

-- Keys and ids are unique, and ids are below the sequence's next value.
abbrev pub AreUnique : List WithdrawalRow → Type 0
AreUnique [] = Unit
AreUnique (r ∷ rs) =
    (any (at_key (row_key r)) rs ≡ false) × (any (λ q. q.id == r.id) rs ≡ false) × AreUnique rs

abbrev AreBelow : ℕ → List WithdrawalRow → Type 0
AreBelow n [] = Unit
AreBelow n (r ∷ rs) = (r.id < n) × AreBelow n rs

pub record IsConsistent (rows : List WithdrawalRow) (next_id : ℕ) : Type 0 where
  pub unique : AreUnique rows
  pub below : AreBelow next_id rows

any-append :
    (p : WithdrawalRow → Bool) (rs : List WithdrawalRow) (r : WithdrawalRow)
    → any p rs ≡ false
    → p r ≡ false
    → any p (rs ++ r ∷ []) ≡ false
any-append p [] r h k = ground arith
any-append p (q ∷ qs) r h k = ground (arith, any-append p qs r)

AreBelow-fresh : (n : ℕ) (rs : List WithdrawalRow) → AreBelow n rs → any (λ q. q.id == n) rs ≡ false
AreBelow-fresh n [] b = refl
AreBelow-fresh n (r ∷ rs) b = ground (arith, AreBelow-fresh n rs b.1)

AreBelow-append :
    (n : ℕ) (rs : List WithdrawalRow) (r : WithdrawalRow)
    → AreBelow n rs
    → r.id ≡ n
    → AreBelow (n + 1) (rs ++ r ∷ [])
AreBelow-append n [] r b e = (omega arith, tt)
AreBelow-append n (q ∷ qs) r b e = (omega (arith, b.0), AreBelow-append n qs r b.1 e)

AreBelow-suc : (n : ℕ) (rs : List WithdrawalRow) → AreBelow n rs → AreBelow (n + 1) rs
AreBelow-suc n [] b = tt
AreBelow-suc n (q ∷ qs) b = (omega (arith, b.0), AreBelow-suc n qs b.1)

AreUnique-append :
    (n : ℕ) (rs : List WithdrawalRow) (r : WithdrawalRow)
    → AreUnique rs
    → AreBelow n rs
    → any (at_key (row_key r)) rs ≡ false
    → r.id ≡ n
    → AreUnique (rs ++ r ∷ [])
AreUnique-append n [] r u b k e = (refl, refl, tt)
AreUnique-append n (q ∷ qs) r u b k e = (
  any-append (at_key (row_key q)) qs r u.0 (ground arith),
  any-append (λ p. p.id == q.id) qs r u.1 (ground (arith, b.0)),
  AreUnique-append n qs r u.2 b.1 (ground arith) e,
)

add_rows-IsConsistent :
    (events : List StoredWithdrawal) (id : ℕ) (rows : List WithdrawalRow)
    → IsConsistent rows id
    → IsConsistent (add_rows events id rows) (next_after events id)
unfolding add_rows
add_rows-IsConsistent [] id rows c = c
add_rows-IsConsistent (sw ∷ sws) id rows c = elim (Bool-cases (any (at_key (stored_key sw)) rows)) [
  | inl e ↦ rw e (
      add_rows-IsConsistent sws (id + 1) rows
        (record { unique = c.unique; below = AreBelow-suc id rows c.below }))
  | inr e ↦ rw e (
      add_rows-IsConsistent sws (id + 1) (rows ++ new_row id sw ∷ []) (record {
        unique = AreUnique-append id rows (new_row id sw) c.unique c.below e refl;
        below = AreBelow-append id rows (new_row id sw) c.below refl;
      }))
]

-- If no two withdrawals share their id or their (transaction, index), and all ids are below the
-- sequence, `add_withdrawals` keeps it so.
pub add_withdrawals-IsConsistent :
    (db : Db) (events : List StoredWithdrawal)
    → IsConsistent db.withdrawals db.next_id
    → IsConsistent (add_withdrawals db events).withdrawals (add_withdrawals db events).next_id
unfolding add_withdrawals
add_withdrawals-IsConsistent db events c = add_rows-IsConsistent events db.next_id db.withdrawals c

row_at-append :
    (k : WithdrawalKey) (rows : List WithdrawalRow) (r : WithdrawalRow)
    → row_at k (rows ++ r ∷ [])
      ≡ (if any (at_key k) rows then row_at k rows else if at_key k r then some r else none)
row_at-append k [] r = refl
row_at-append k (q ∷ qs) r = ground (arith, row_at-append k qs r)

row_at-none :
    (k : WithdrawalKey) (rows : List WithdrawalRow)
    → any (at_key k) rows ≡ false
    → row_at k rows ≡ none
row_at-none k [] h = refl
row_at-none k (q ∷ qs) h = ground (arith, row_at-none k qs)

-- The row that the events make for a key that has none: of the first event with the key.
abbrev pub first_event : WithdrawalKey → ℕ → List StoredWithdrawal → Option WithdrawalRow
first_event k id [] = none
first_event k id (sw ∷ sws) =
    if at_key k (new_row id sw) then some (new_row id sw) else first_event k (id + 1) sws

any-snoc :
    (p : WithdrawalRow → Bool) (rs : List WithdrawalRow) (r : WithdrawalRow)
    → any p (rs ++ r ∷ []) ≡ (any p rs || p r)
any-snoc p [] r = ground arith
any-snoc p (q ∷ qs) r = ground (arith, any-snoc p qs r)

same_key-any :
    (k : WithdrawalKey) (id : ℕ) (sw : StoredWithdrawal) (rows : List WithdrawalRow)
    → at_key k (new_row id sw) ≡ true
    → any (at_key k) rows ≡ any (at_key (stored_key sw)) rows
same_key-any k id sw [] h = refl
same_key-any k id sw (r ∷ rs) h = ground (arith, same_key-any k id sw rs)

row_at-add_rows :
    (k : WithdrawalKey) (events : List StoredWithdrawal) (id : ℕ) (rows : List WithdrawalRow)
    → row_at k (add_rows events id rows)
      ≡ (if any (at_key k) rows then row_at k rows else first_event k id events)
unfolding add_rows
row_at-add_rows k [] id rows = ground (arith, row_at-none k rows)
row_at-add_rows k (sw ∷ sws) id rows = elim (Bool-cases (any (at_key (stored_key sw)) rows)) [
  | inl e ↦ rw (e, row_at-add_rows k sws (id + 1) rows) (ground (arith, same_key-any k id sw rows))
  | inr e ↦
      rw (e, row_at-add_rows k sws (id + 1) (rows ++ new_row id sw ∷ []))
        (ground (
          arith,
          any-snoc (at_key k) rows (new_row id sw),
          row_at-append k rows (new_row id sw),
          row_at-none k rows,
        ))
]

-- For every key: `add_withdrawals` keeps the row that the key had; a key that had none gets the row
-- of the first of the events with that key, marked finalizable, and none if no event has it.
pub row_at-add_withdrawals :
    (db : Db) (events : List StoredWithdrawal) (k : WithdrawalKey)
    → row_at k (add_withdrawals db events).withdrawals ≡ (
        if any (at_key k) db.withdrawals
        then row_at k db.withdrawals
        else first_event k db.next_id events)
unfolding add_withdrawals
row_at-add_withdrawals db events k = row_at-add_rows k events db.next_id db.withdrawals
