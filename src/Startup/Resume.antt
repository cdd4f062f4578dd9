-- ===== src/Startup/Resume.antt =====
-- bin/withdrawal-finalizer/src/main.rs: where reading resumes.
use mathlib.Core.List.{Mem, mem-map, mem-map_of_mem}
use mathlib.Core.Logic.{∥∥₁_elim, ∥∥₁_map}
use native.Mathlib.Bridge.{le_prop}
use zksync_withdrawal_finali.Common.{
  arith, ℕ, ◌+◌, ◌-◌, ◌≤◌, ◌<◌, ◌≡◌, ap, false, none, Option-cases, inl, inr, map, ok, u64_mod,
  List,
}
use zksync_withdrawal_finali.Storage.Tables.{Db, WithdrawalRow, max_of}
use zksync_withdrawal_finali.Storage.Withdrawals.{last_l2_block_seen}
use zksync_withdrawal_finali.Storage.Withdrawals.NoData.{le-max_of, max_of-none}
use zksync_withdrawal_finali.Storage.Selection.Results.{max_of-mem}
use zksync_withdrawal_finali.Startup.{Nodes, start_from_l2_block}

-- If the configuration names no block, the database answers, a withdrawal is stored, and the block
-- of each is positive and fits a u64, then reading resumes at the block before the last one that a
-- stored withdrawal is in: no stored withdrawal is further than one block ahead, and some is in the
-- next block, which may have been stored in part and is read again.
pub start_from_l2_block-resumes :
    (nodes : Nodes) (db : Db) (row : WithdrawalRow)
    → Mem row db.withdrawals
    → ((r : WithdrawalRow)
        → Mem r db.withdrawals
        → (0 < r.l2_block_number) × (r.l2_block_number < u64_mod))
    → (n : ℕ) × (start_from_l2_block none nodes false db ≡ ok n)
      × ((r : WithdrawalRow) → Mem r db.withdrawals → r.l2_block_number ≤ n + 1)
      × ∥ ((r : WithdrawalRow) × Mem r db.withdrawals × (r.l2_block_number ≡ n + 1)) ∥₁
unfolding start_from_l2_block last_l2_block_seen
start_from_l2_block-resumes nodes db row m bounded = elim (Option-cases (max_of blocks)) [
  | inl e ↦ absurd (max_of-none row.l2_block_number blocks (mem-map_of_mem _ m) e)
  | inr (top, e) ↦
      let highest : ∥ ((r : WithdrawalRow) × Mem r db.withdrawals × (r.l2_block_number ≡ top)) ∥₁ =
        mem-map.0 (max_of-mem blocks top e) in
      let fits : top < u64_mod =
        ∥∥₁_elim highest le_prop (λ h. let b = (bounded h.0 h.1).1 in omega (arith, b, h.2)) in
      let below : (r : WithdrawalRow) → Mem r db.withdrawals → r.l2_block_number ≤ top =
        λ r mr. le-max_of r.l2_block_number top blocks (mem-map_of_mem _ mr) e in
      let positive : 0 < top =
        let b = (bounded row m).0 in let c = below row m in omega (arith, b, c) in
      (
        top - 1,
        rw e (ap ok (omega (arith, fits, positive))),
        λ r mr. (let c = below r mr in omega (arith, c, positive)),
        ∥∥₁_map highest (λ h. (h.0, h.1, omega (arith, h.2, positive))),
      )
]
  where
    blocks : List ℕ
    blocks = map (λ r. r.l2_block_number) db.withdrawals
