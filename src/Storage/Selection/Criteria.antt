-- ===== src/Storage/Selection/Criteria.antt =====
-- storage/src/lib.rs: what the three selecting queries return.
use mathlib.Core.Logic.{∥∥₁_map, ∥∥₁_prop}
use mathlib.Core.Logic.Or
use mathlib.Core.List.{
  Mem, mem-map, mem-append, mem-cons, not-mem-nil, mem-cons_of_mem, mem-cons_self,
}
use mathlib.Core.List.Perm
use native.Mathlib.Nat.{ℕ_set}
use zksync_withdrawal_finali.Common.{
  ℕ, ◌≡◌, ap, Bool, true, List, [], ◌∷◌, arith, ◌==◌, Bool-cases, inl, inr,
}
use zksync_withdrawal_finali.Common.Membership.{mem-filter, mem-take}
use zksync_withdrawal_finali.Client.{WithdrawalParams}
use zksync_withdrawal_finali.Storage.Tables.{Db, WithdrawalRow, FinalizationRow}
use zksync_withdrawal_finali.Storage.Withdrawals.{Scan}
use zksync_withdrawal_finali.Storage.Selection.{Joined, join_row, join, params_of, select}

-- A finalization row and the withdrawal that it belongs to.
pub record Joins (fs : List FinalizationRow) (ws : List WithdrawalRow) (row : Joined) : Type 0 where
  pub has_data : Mem row.0 fs
  pub is_stored : Mem row.1 ws
  pub same_id : row.0.withdrawal_id ≡ row.1.id

Joins-prop :
    {fs : List FinalizationRow} {ws : List WithdrawalRow} {row : Joined} → IsProp (Joins fs ws row)
Joins-prop a b i = record {
  has_data = ∥∥₁_prop a.has_data b.has_data i;
  is_stored = ∥∥₁_prop a.is_stored b.is_stored i;
  same_id = ℕ_set _ _ a.same_id b.same_id i;
}

mem-join_row :
    (fs : List FinalizationRow) (row : Joined) (f : FinalizationRow) (ws : List WithdrawalRow)
    → Mem f fs
    → Mem row (join_row f ws)
    → Joins fs ws row
unfolding join_row
mem-join_row fs row f [] mf m = absurd (not-mem-nil m)
mem-join_row fs row f (w ∷ ws) mf m =
    let rest = λ (later : Mem row (join_row f ws)).
      let j = mem-join_row fs row f ws mf later in
      record_of (j.has_data, mem-cons_of_mem w j.is_stored, j.same_id) in
    elim (Bool-cases (f.withdrawal_id == w.id)) [
      | inl e ↦
          Or.elim Joins-prop (mem-cons.0 (rw e at m))
            (λ q. record {
              has_data = rw (ap (λ (r : Joined). r.0) q) mf;
              is_stored = rw (ap (λ (r : Joined). r.1) q) mem-cons_self;
              same_id = rw q (ground arith);
            })
            rest
      | inr e ↦ rest (rw e at m)
    ]
  where
    record_of :
        Mem row.0 fs × Mem row.1 (w ∷ ws) × (row.0.withdrawal_id ≡ row.1.id) → Joins fs (w ∷ ws) row
    record_of t = record { has_data = t.0; is_stored = t.1; same_id = t.2 }

mem-join :
    (fs all : List FinalizationRow) (ws : List WithdrawalRow) (row : Joined)
    → ((f : FinalizationRow) → Mem f fs → Mem f all)
    → Mem row (join fs ws)
    → Joins all ws row
unfolding join
mem-join [] all ws row sub m = absurd (not-mem-nil m)
mem-join (f ∷ fs) all ws row sub m =
    Or.elim Joins-prop (mem-append.0 m) (mem-join_row all row f ws (sub f mem-cons_self))
      (mem-join fs all ws row (λ g mg. sub g (mem-cons_of_mem f mg)))

-- Every withdrawal that a query returns comes from a joined row that passes the query's test.
pub mem-select :
    (scan : Scan Joined) (db : Db) (limit_by : ℕ) (test : Joined → Bool) (w : WithdrawalParams)
    → Mem w (select scan db limit_by test)
    → ∥ (
        (row : Joined) × Joins db.finalization_data db.withdrawals row
        × (test row ≡ true)
        × (params_of row ≡ w)) ∥₁
unfolding select
mem-select scan db limit_by test w m = ∥∥₁_map (mem-map.0 m) λ found.
    let kept =
      mem-filter test (join db.finalization_data db.withdrawals)
        ((Perm.mem_iff (scan.arrange_perm _)).0 (mem-take limit_by _ found.1)) in
    (
      found.0,
      mem-join db.finalization_data db.finalization_data db.withdrawals found.0 (λ f h. h) kept.0,
      kept.1,
      found.2,
    )
