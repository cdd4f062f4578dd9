-- ===== src/Storage/Selection/Exclusion.antt =====
-- storage/src/lib.rs: which withdrawals the queries do not return any more after an update.
use mathlib.Core.Logic.{∥∥₁_elim, ∥∥₁_map, ∥∥₁_prop}
use mathlib.Core.List.{Mem, mem-map}
use zksync_withdrawal_finali.Common.{
  ℕ, ◌+◌, ◌≤◌, ◌≡◌, refl, ◌∙◌, ap, sym, subst, true, Option, some, List, [], ◌∷◌, any, arith,
  length, Bool-cases, inl, inr, ◌==◌, if◌then◌else◌, ◌&&◌,
}
use mathlib.Core.HLevel.{⊥_prop}
use zksync_withdrawal_finali.Common.Membership.{any_of_mem}
use zksync_withdrawal_finali.Client.{WithdrawalParams, WithdrawalKey, key}
use zksync_withdrawal_finali.Storage.Tables.{Db, FinalizationRow, WithdrawalRow}
use zksync_withdrawal_finali.Storage.Withdrawals.{Scan, at_key}
use zksync_withdrawal_finali.Storage.Finalization.{
  is_named, update_named, finalization_data_set_finalized_in_tx,
  inc_unsuccessful_finalization_attempts,
}
use zksync_withdrawal_finali.Storage.Selection.{
  Joined, params_of, withdrawals_to_finalize, withdrawals_to_finalize_with_whitelist,
  withdrawals_to_finalize_with_blacklist,
}
use zksync_withdrawal_finali.Storage.Selection.Criteria.{Joins}
use zksync_withdrawal_finali.Storage.Selection.Results.{
  IsFinalizable, withdrawals_to_finalize-IsFinalizable, whitelist-IsFinalizable,
  blacklist-IsFinalizable,
}

row_key : Joined → WithdrawalKey
row_key row = key (params_of row)

Joins-is_named :
    (fs : List FinalizationRow) (ws : List WithdrawalRow) (keys : List WithdrawalKey) (row : Joined)
    → Joins fs ws row
    → Mem (key (params_of row)) keys
    → is_named ws keys row.0.withdrawal_id ≡ true
unfolding key
Joins-is_named fs ws keys row j m =
    any_of_mem (λ k. any (λ w. at_key k w && w.id == row.0.withdrawal_id) ws) keys m
      (any_of_mem (λ w. at_key (key (params_of row)) w && w.id == row.0.withdrawal_id) ws
        j.is_stored (ground (arith, j.same_id)))

-- A row after an update of the named rows: the row that it was, updated if it is named.
abbrev Updated :
    (FinalizationRow → FinalizationRow) → Db → List WithdrawalKey → FinalizationRow → Type 0
Updated update db keys row =
    (old : FinalizationRow) × Mem old db.finalization_data
    × ((if is_named db.withdrawals keys old.withdrawal_id then update old else old) ≡ row)

mem-update_named :
    (update : FinalizationRow → FinalizationRow) (db : Db) (keys : List WithdrawalKey)
    (row : FinalizationRow)
    → Mem row (update_named db keys update).finalization_data
    → ∥ Updated update db keys row ∥₁
mem-update_named update db keys row m = mem-map.0 m

Updated-named :
    (update : FinalizationRow → FinalizationRow) (db : Db) (keys : List WithdrawalKey)
    (row : FinalizationRow)
    → is_named db.withdrawals keys row.withdrawal_id ≡ true
    → (found : Updated update db keys row) → row ≡ update found.0
Updated-named update db keys row named found =
    elim (Bool-cases (is_named db.withdrawals keys found.0.withdrawal_id)) [
      | inl e ↦ sym (rw e at found.2)
      | inr e ↦
          let same : found.0 ≡ row = rw e at found.2 in
          let old : is_named db.withdrawals keys found.0.withdrawal_id ≡ true =
            subst (λ r. is_named db.withdrawals keys r.withdrawal_id ≡ true) (sym same) named in
          cc
    ]

finalized-not-IsFinalizable :
    (db : Db) (keys : List WithdrawalKey) (tx : ℕ) (threshold : Option ℕ) (row : Joined)
    → IsFinalizable (finalization_data_set_finalized_in_tx db keys tx) threshold row
    → ¬ Mem (key (params_of row)) keys
unfolding finalization_data_set_finalized_in_tx
finalized-not-IsFinalizable db keys tx threshold row f m =
    let named = Joins-is_named _ db.withdrawals keys row f.joins m in
    ∥∥₁_elim (mem-update_named _ db keys row.0 f.joins.has_data) ⊥_prop λ found.
      let e =
        Updated-named (λ r. record r { finalization_tx = some tx }) db keys row.0 named found in
      cc (ap (λ (r : FinalizationRow). r.finalization_tx) e, f.not_finalized)

-- Once `finalization_data_set_finalized_in_tx` has recorded a transaction for some withdrawals, none
-- of the three queries returns one of them, whatever the limits, the time, the token lists and the
-- threshold.
pub finalized-not-returned :
    (scan : Scan Joined) (db : Db) (keys : List WithdrawalKey) (tx now limit_by : ℕ)
    (tokens : List ℕ) (threshold : Option ℕ) (w : WithdrawalParams)
    → Mem (key w) keys
    → let db' = finalization_data_set_finalized_in_tx db keys tx in
      (¬ Mem w (withdrawals_to_finalize scan db' now limit_by threshold))
      × (¬ Mem w (withdrawals_to_finalize_with_whitelist scan db' limit_by tokens threshold))
      × (¬ Mem w (withdrawals_to_finalize_with_blacklist scan db' limit_by tokens threshold))
finalized-not-returned scan db keys tx now limit_by tokens threshold w m =
    let db' = finalization_data_set_finalized_in_tx db keys tx in
    let absent = λ (row : Joined) (e : params_of row ≡ w) (f : IsFinalizable db' threshold row).
      finalized-not-IsFinalizable db keys tx threshold row f
        (subst (λ v. Mem (key v) keys) (sym e) m) in
    (
      λ h.
          ∥∥₁_elim (withdrawals_to_finalize-IsFinalizable scan db' now limit_by threshold w h)
            ⊥_prop (λ found. absent found.0 found.1 found.2),
      λ h.
          ∥∥₁_elim (whitelist-IsFinalizable scan db' limit_by tokens threshold w h) ⊥_prop
            (λ found. absent found.0 found.1 found.2),
      λ h.
          ∥∥₁_elim (blacklist-IsFinalizable scan db' limit_by tokens threshold w h) ⊥_prop
            (λ found. absent found.0 found.1 found.2),
    )

-- The database after failed attempts at the times of the list.
abbrev pub inc_all : Db → List WithdrawalKey → List ℕ → Db
inc_all db keys [] = db
inc_all db keys (now ∷ times) =
    inc_all (inc_unsuccessful_finalization_attempts db now keys) keys times

inc_all-withdrawals :
    (db : Db) (keys : List WithdrawalKey) (times : List ℕ)
    → (inc_all db keys times).withdrawals ≡ db.withdrawals
unfolding inc_unsuccessful_finalization_attempts
inc_all-withdrawals db keys [] = refl
inc_all-withdrawals db keys (now ∷ times) =
    inc_all-withdrawals (inc_unsuccessful_finalization_attempts db now keys) keys times

-- A named row has failed at least as often as there were attempts.
attempts-inc_all :
    (db : Db) (keys : List WithdrawalKey) (times : List ℕ) (row : FinalizationRow)
    → is_named db.withdrawals keys row.withdrawal_id ≡ true
    → Mem row (inc_all db keys times).finalization_data
    → ∥ (
        (old : FinalizationRow) × Mem old db.finalization_data
        × (old.withdrawal_id ≡ row.withdrawal_id)
        × (old.failed_finalization_attempts + length times ≡ row.failed_finalization_attempts)) ∥₁
unfolding inc_unsuccessful_finalization_attempts
attempts-inc_all db keys [] row named m = ∣ (row, m, refl, omega arith) ∣₁
attempts-inc_all db keys (now ∷ times) row named m =
    ∥∥₁_elim
      (attempts-inc_all (inc_unsuccessful_finalization_attempts db now keys) keys times row named m)
      ∥∥₁_prop
      λ mid. ∥∥₁_map (mem-update_named _ db keys mid.0 mid.1) λ found.
        let e =
          Updated-named
            (λ r. record r {
              last_finalization_attempt = some now;
              failed_finalization_attempts = r.failed_finalization_attempts + 1;
            })
            db keys mid.0 (rw mid.2 named) found in
        (
          found.0,
          found.1,
          sym (ap (λ (r : FinalizationRow). r.withdrawal_id) e) ∙ mid.2,
          omega (arith, ap (λ (r : FinalizationRow). r.failed_finalization_attempts) e, mid.3),
        )

-- After three or more calls of `inc_unsuccessful_finalization_attempts`, at any times, with some
-- withdrawals, none of the three queries returns one of them.
pub failed-not-returned :
    (scan : Scan Joined) (db : Db) (keys : List WithdrawalKey) (times : List ℕ) (now limit_by : ℕ)
    (tokens : List ℕ) (threshold : Option ℕ) (w : WithdrawalParams)
    → 3 ≤ length times
    → Mem (key w) keys
    → let db' = inc_all db keys times in
      (¬ Mem w (withdrawals_to_finalize scan db' now limit_by threshold))
      × (¬ Mem w (withdrawals_to_finalize_with_whitelist scan db' limit_by tokens threshold))
      × (¬ Mem w (withdrawals_to_finalize_with_blacklist scan db' limit_by tokens threshold))
failed-not-returned scan db keys times now limit_by tokens threshold w long m =
    let db' = inc_all db keys times in
    (
      λ h.
          ∥∥₁_elim (withdrawals_to_finalize-IsFinalizable scan db' now limit_by threshold w h)
            ⊥_prop (λ found. absent found.0 found.1 found.2),
      λ h.
          ∥∥₁_elim (whitelist-IsFinalizable scan db' limit_by tokens threshold w h) ⊥_prop
            (λ found. absent found.0 found.1 found.2),
      λ h.
          ∥∥₁_elim (blacklist-IsFinalizable scan db' limit_by tokens threshold w h) ⊥_prop
            (λ found. absent found.0 found.1 found.2),
    )
  where
    absent :
        (row : Joined) → params_of row ≡ w → IsFinalizable (inc_all db keys times) threshold row → ⊥
    absent row e f =
        let named : is_named db.withdrawals keys row.0.withdrawal_id ≡ true =
          rw (inc_all-withdrawals db keys times) at (
            Joins-is_named _ (inc_all db keys times).withdrawals keys row f.joins
              (subst (λ v. Mem (key v) keys) (sym e) m)) in
        ∥∥₁_elim (attempts-inc_all db keys times row.0 named f.joins.has_data) ⊥_prop
          λ old. omega (arith, f.attempts_left, old.3)
