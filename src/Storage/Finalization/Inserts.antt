-- ===== src/Storage/Finalization/Inserts.antt =====
-- storage/src/lib.rs: what `add_withdrawals_data` inserts.
use zksync_withdrawal_finali.Common.{
  ℕ, ◌≡◌, refl, true, Option, none, some, List, [], ◌∷◌, ◌++◌, arith, ◌==◌, if◌then◌else◌,
  Bool-cases, inl, inr, ok,
}
use zksync_withdrawal_finali.Client.{WithdrawalParams}
use zksync_withdrawal_finali.Storage.Tables.{Db, FinalizationRow}
use zksync_withdrawal_finali.Storage.Finalization.{
  data_row, has_data, add_data_rows, add_withdrawals_data,
}

-- The finalization data of a withdrawal, if it has any.
abbrev pub data_of : ℕ → List FinalizationRow → Option FinalizationRow
data_of id [] = none
data_of id (r ∷ rs) = if r.withdrawal_id == id then some r else data_of id rs

abbrev pub first_data : ℕ → List WithdrawalParams → Option FinalizationRow
first_data id [] = none
first_data id (d ∷ ds) = if d.id == id then some (data_row d) else first_data id ds

abbrev pub or_else : Option FinalizationRow → Option FinalizationRow → Option FinalizationRow
or_else none b = b
or_else (some a) b = some a

has_data-data_of :
    (d : WithdrawalParams) (rows : List FinalizationRow)
    → has_data rows d ≡ true
    → (r : FinalizationRow) × (data_of d.id rows ≡ some r)
has_data-data_of d [] h = cc
has_data-data_of d (r ∷ rs) h = elim (Bool-cases (r.withdrawal_id == d.id)) [
  | inl e ↦ (r, rw e)
  | inr e ↦ let later = has_data-data_of d rs (ground arith) in (later.0, rw e later.1)
]

data_of-append :
    (id : ℕ) (rows : List FinalizationRow) (r : FinalizationRow)
    → data_of id (rows ++ r ∷ [])
      ≡ or_else (data_of id rows) (if r.withdrawal_id == id then some r else none)
data_of-append id [] r = refl
data_of-append id (q ∷ qs) r = ground (arith, data_of-append id qs r)

data_of-add_data_rows :
    (id : ℕ) (wd : List WithdrawalParams) (rows : List FinalizationRow)
    → data_of id (add_data_rows wd rows) ≡ or_else (data_of id rows) (first_data id wd)
unfolding add_data_rows
data_of-add_data_rows id [] rows = ground arith
data_of-add_data_rows id (d ∷ ds) rows = elim (Bool-cases (has_data rows d)) [
  | inl e ↦
      let (r, p) = has_data-data_of d rows e in
      rw (e, data_of-add_data_rows id ds rows) (ground arith)
  | inr e ↦
      rw (e, data_of-add_data_rows id ds (rows ++ data_row d ∷ []))
        (ground (arith, data_of-append id rows (data_row d)))
]

-- If `add_withdrawals_data` succeeds, a withdrawal that had finalization data keeps it, and every
-- other gets that of the first of the inserted parameters with its id, not finalized and with no
-- attempt; the other tables are as they were.
pub add_withdrawals_data-data_of :
    (db db' : Db) (wd : List WithdrawalParams) (id : ℕ)
    → add_withdrawals_data db wd ≡ ok db'
    → (data_of id db'.finalization_data
        ≡ or_else (data_of id db.finalization_data) (first_data id wd))
      × (db'.withdrawals ≡ db.withdrawals)
      × (db'.l2_blocks ≡ db.l2_blocks)
unfolding add_withdrawals_data
add_withdrawals_data-data_of db db' wd id e =
    ground (arith, data_of-add_data_rows id wd db.finalization_data)
