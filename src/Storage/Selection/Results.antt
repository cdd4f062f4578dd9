-- ===== src/Storage/Selection/Results.antt =====
-- storage/src/lib.rs: the criteria that every withdrawal returned for finalization meets.
use mathlib.Core.Logic.{∥∥₁_map}
use mathlib.Core.List.{Mem, mem-map, mem-cons_of_mem, mem-cons_self}
use zksync_withdrawal_finali.Common.{
  unwrap_or, ℕ, ◌+◌, ◌≤◌, ◌<◌, ◌≡◌, ◌≢◌, ap, ◌∙◌, ◌⊎◌, inl, inr, true, Option, none, some, List, [],
  ◌∷◌, map, filter, arith, ltb, Bool-cases, Option-cases,
}
use zksync_withdrawal_finali.Common.Membership.{mem-filter, contains-mem, mem-contains}
use zksync_withdrawal_finali.Client.{WithdrawalParams, eth_token_address}
use zksync_withdrawal_finali.Storage.Tables.{Db, L2BlockRow, max_of}
use zksync_withdrawal_finali.Storage.Blocks.{last_executed_block, is_some}
use zksync_withdrawal_finali.Storage.Withdrawals.{Scan}
use zksync_withdrawal_finali.Storage.Selection.{
  Joined, is_pending, passes_threshold, params_of, eligible, eligible_whitelisted,
  eligible_not_blacklisted, withdrawals_to_finalize, withdrawals_to_finalize_with_whitelist,
  withdrawals_to_finalize_with_blacklist,
}
use zksync_withdrawal_finali.Storage.Selection.Criteria.{Joins, mem-select}

-- The number is at most 1, or at most that of some executed block.
abbrev pub IsExecuted : Db → ℕ → Type 0
IsExecuted db b = ∥ (
    (b ≤ 1)
    ⊎ ((block : L2BlockRow) × Mem block db.l2_blocks
        × (block.execute_l1_block_number ≢ none)
        × (b ≤ block.l2_block_number))) ∥₁

-- What every query asks of a withdrawal and its finalization row.
pub record IsFinalizable (db : Db) (eth_threshold : Option ℕ) (row : Joined) : Type 0 where
  pub joins : Joins db.finalization_data db.withdrawals row
  pub not_finalized : row.0.finalization_tx ≡ none
  pub attempts_left : row.0.failed_finalization_attempts < 3
  pub executed : IsExecuted db row.0.l2_block_number
  pub large_enough : row.1.token ≡ eth_token_address → unwrap_or eth_threshold 0 ≤ row.1.amount

pub max_of-mem : (ns : List ℕ) (m : ℕ) → max_of ns ≡ some m → Mem m ns
max_of-mem [] m e = cc
max_of-mem (n ∷ ns) m e = elim (Option-cases (max_of ns)) [
  | inl p ↦ let same : n ≡ m = ground arith in rw (← same) mem-cons_self
  | inr (k, p) ↦ elim (Bool-cases (ltb n k)) [
    | inl t ↦
        let same : k ≡ m = ground arith in mem-cons_of_mem n (max_of-mem ns m (p ∙ ap some same))
    | inr t ↦ let same : n ≡ m = ground arith in rw (← same) mem-cons_self
  ]
]

is_some→≢none : {A : Type 0} (o : Option A) → is_some o ≡ true → o ≢ none
is_some→≢none none h e = cc
is_some→≢none (some a) h e = cc

last_executed_block-IsExecuted : (db : Db) (b : ℕ) → b ≤ last_executed_block db → IsExecuted db b
unfolding last_executed_block
last_executed_block-IsExecuted db b h = elim (Option-cases (max_of numbers)) [
  | inl e ↦ ∣ inl (rw e at h) ∣₁
  | inr (m, e) ↦ ∥∥₁_map (mem-map.0 (max_of-mem numbers m e)) λ found.
      let kept = mem-filter (λ r. is_some r.execute_l1_block_number) db.l2_blocks found.1 in
      inr (found.0, kept.0, is_some→≢none _ kept.1, rw found.2 (rw e at h))
]
  where
    numbers : List ℕ
    numbers =
        map (λ r. r.l2_block_number) (filter (λ r. is_some r.execute_l1_block_number) db.l2_blocks)

-- The tests of a row, read as facts.
pending_facts :
    (db : Db) (threshold : Option ℕ) (row : Joined)
    → Joins db.finalization_data db.withdrawals row
    → is_pending db row ≡ true
    → passes_threshold threshold row ≡ true
    → IsFinalizable db threshold row
unfolding is_pending passes_threshold
pending_facts db threshold row j p t = record {
  joins = j;
  not_finalized = ground arith;
  attempts_left = ground arith;
  executed = last_executed_block-IsExecuted db row.0.l2_block_number (ground arith);
  large_enough = λ e. ground arith;
}

-- Whatever the server's scan order, each withdrawal that `withdrawals_to_finalize` returns is that
-- of a stored withdrawal and its finalization data, not finalized, with fewer than three failed
-- attempts and none in the last 60 seconds, in a block numbered 1 or less or no higher than some
-- executed block, and, if it is of ETH, not below the threshold.
pub withdrawals_to_finalize-IsFinalizable :
    (scan : Scan Joined) (db : Db) (now limit_by : ℕ) (threshold : Option ℕ) (w : WithdrawalParams)
    → Mem w (withdrawals_to_finalize scan db now limit_by threshold)
    → ∥ (
        (row : Joined) × (params_of row ≡ w)
        × IsFinalizable db threshold row
        × ((last : ℕ) → row.0.last_finalization_attempt ≡ some last → last + 60 < now)) ∥₁
unfolding withdrawals_to_finalize eligible
withdrawals_to_finalize-IsFinalizable scan db now limit_by threshold w m =
    ∥∥₁_map (mem-select scan db limit_by (eligible db now threshold) w m) λ found.
      let (row, joins, test, same) = found in
      (
        row,
        same,
        pending_facts db threshold row joins (ground arith) (ground arith),
        λ last e. ground arith,
      )

-- Whatever the server's scan order, each withdrawal that the query with a whitelist returns is that
-- of a stored withdrawal and its finalization data, not finalized, with fewer than three failed
-- attempts, in a block numbered 1 or less or no higher than some executed block, of a token on the
-- list, and, if it is of ETH, not below the threshold.
pub whitelist-IsFinalizable :
    (scan : Scan Joined) (db : Db) (limit_by : ℕ) (whitelist : List ℕ) (threshold : Option ℕ)
    (w : WithdrawalParams)
    → Mem w (withdrawals_to_finalize_with_whitelist scan db limit_by whitelist threshold)
    → ∥ (
        (row : Joined) × (params_of row ≡ w)
        × IsFinalizable db threshold row
        × Mem row.1.token whitelist) ∥₁
unfolding withdrawals_to_finalize_with_whitelist eligible_whitelisted
whitelist-IsFinalizable scan db limit_by whitelist threshold w m =
    ∥∥₁_map (mem-select scan db limit_by (eligible_whitelisted db whitelist threshold) w m) λ found.
      let (row, joins, test, same) = found in
      (
        row,
        same,
        pending_facts db threshold row joins (ground arith) (ground arith),
        contains-mem row.1.token whitelist (ground arith),
      )

-- Whatever the server's scan order, each withdrawal that the query with a blacklist returns is that
-- of a stored withdrawal and its finalization data, not finalized, with fewer than three failed
-- attempts, in a block numbered 1 or less or no higher than some executed block, of a token not on
-- the list, and, if it is of ETH, not below the threshold.
pub blacklist-IsFinalizable :
    (scan : Scan Joined) (db : Db) (limit_by : ℕ) (blacklist : List ℕ) (threshold : Option ℕ)
    (w : WithdrawalParams)
    → Mem w (withdrawals_to_finalize_with_blacklist scan db limit_by blacklist threshold)
    → ∥ (
        (row : Joined) × (params_of row ≡ w)
        × IsFinalizable db threshold row
        × (Mem row.1.token blacklist → ⊥)) ∥₁
unfolding withdrawals_to_finalize_with_blacklist eligible_not_blacklisted
blacklist-IsFinalizable scan db limit_by blacklist threshold w m =
    ∥∥₁_map (mem-select scan db limit_by (eligible_not_blacklisted db blacklist threshold) w m)
      λ found.
        let (row, joins, test, same) = found in
        (
          row,
          same,
          pending_facts db threshold row joins (ground arith) (ground arith),
          λ listed. let h = mem-contains row.1.token blacklist listed in ground arith,
        )
