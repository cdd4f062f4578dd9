-- ===== src/Storage/Finalization/Progress.antt =====
-- storage/src/lib.rs: which withdrawals are asked for after some got their finalization data.
use mathlib.Core.List.{Mem, mem-cons_self, mem-cons_of_mem}
use zksync_withdrawal_finali.Common.{
  ℕ, ◌<◌, ◌≡◌, ◌≢◌, refl, sym, ap, ◌∙◌, subst, Option, none, some, List, [], ◌∷◌, map, arith, ◌==◌,
  any, true, ==_iff, Bool-cases, inl, inr, ok,
}
use zksync_withdrawal_finali.Common.Membership.{any_of_mem}
use zksync_withdrawal_finali.Client.{WithdrawalParams}
use zksync_withdrawal_finali.Storage.Tables.{Db, WithdrawalRow, FinalizationRow}
use zksync_withdrawal_finali.Storage.Withdrawals.{Scan, with_block, get_withdrawals_with_no_data}
use zksync_withdrawal_finali.Storage.Withdrawals.NoData.{get_withdrawals_with_no_data-IsNew}
use zksync_withdrawal_finali.Storage.Finalization.{data_row, add_withdrawals_data}
use zksync_withdrawal_finali.Storage.Finalization.Inserts.{
  data_of, first_data, or_else, add_withdrawals_data-data_of,
}

first_data-some :
    (id : ℕ) (wd : List WithdrawalParams)
    → any (λ d. d.id == id) wd ≡ true
    → first_data id wd ≢ none
first_data-some id [] h e = cc
first_data-some id (d ∷ ds) h e = elim (Bool-cases (d.id == id)) [
  | inl t ↦ let no : some (data_row d) ≡ none = rw t at e in cc
  | inr t ↦ first_data-some id ds (rw t at h) (rw t at e)
]

or_else-some :
    (a b : Option FinalizationRow) → b ≢ none → (r : FinalizationRow) × (or_else a b ≡ some r)
or_else-some (some r) b h = (r, refl)
or_else-some none (some r) h = (r, refl)
or_else-some none none h = absurd (h refl)

data_of-mem :
    (id : ℕ) (rows : List FinalizationRow) (r : FinalizationRow)
    → data_of id rows ≡ some r
    → Mem r rows × (r.withdrawal_id ≡ id)
data_of-mem id [] r e = let no : none ≡ some r = e in cc
data_of-mem id (q ∷ qs) r e = elim (Bool-cases (q.withdrawal_id == id)) [
  | inl t ↦
      let same : some q ≡ some r = rw t at e in
      let is : q ≡ r = cc in
      (
        subst (λ z. Mem z (q ∷ qs)) is mem-cons_self,
        ap (λ z. z.withdrawal_id) (sym is) ∙ (==_iff q.withdrawal_id id).0 t,
      )
  | inr t ↦ let (m, i) = data_of-mem id qs r (rw t at e) in (mem-cons_of_mem q m, i)
]

-- Once the finalization data of withdrawals is stored, `get_withdrawals_with_no_data` returns only
-- withdrawals with ids above all of theirs: none of them is asked for again, and neither is a
-- withdrawal with a lower id that has no data yet.
pub add_withdrawals_data-passes :
    (scan : Scan WithdrawalRow) (db db' : Db) (wd : List WithdrawalParams) (limit_by : ℕ)
    → add_withdrawals_data db wd ≡ ok db'
    → (rows : List WithdrawalRow) × (get_withdrawals_with_no_data scan db' limit_by
        ≡ map with_block rows)
      × ((row : WithdrawalRow) (p : WithdrawalParams) → Mem row rows → Mem p wd → p.id < row.id)
add_withdrawals_data-passes scan db db' wd limit_by e =
    let (rows, same, few, sorted, new) = get_withdrawals_with_no_data-IsNew scan db' limit_by in
    (
      rows,
      same,
      λ row p m n.
          let has = any_of_mem (λ d. d.id == p.id) wd n ((==_iff p.id p.id).1 refl) in
          let (r, f) =
            or_else-some (data_of p.id db.finalization_data) (first_data p.id wd)
              (first_data-some p.id wd has) in
          let (mr, i) =
            data_of-mem p.id db'.finalization_data r
              ((add_withdrawals_data-data_of db db' wd p.id e).0 ∙ f) in
          let above : r.withdrawal_id < row.id = (new row m).0.above_data r mr in
          omega (arith, above, i),
    )
