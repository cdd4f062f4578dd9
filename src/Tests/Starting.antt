-- ===== src/Tests/Starting.antt =====
-- bin/withdrawal-finalizer/src/main.rs on a database with a withdrawal in L2 block 5.
use mathlib.Core.HLevel.{×_prop}
use mathlib.Core.List.{Mem, mem-cons, mem-cons_self, not-mem-nil}
use mathlib.Core.Logic.Or
use native.Mathlib.Bridge.{le_prop}
use zksync_withdrawal_finali.Common.{
  arith, ℕ, ◌+◌, ◌≤◌, ◌<◌, ◌≡◌, ap, [], ◌∷◌, none, false, ok, err, u64_mod,
}
use zksync_withdrawal_finali.Storage.Tables.{Db, WithdrawalRow}
use zksync_withdrawal_finali.Startup.{Nodes, start_from_l2_block, node_failed}
use zksync_withdrawal_finali.Startup.Resume.{start_from_l2_block-resumes}
use zksync_withdrawal_finali.Tests.Data.{sample, eth_row}

abbrev one_row : Db
one_row = record sample { withdrawals = eth_row ∷ [] }

abbrev unreachable : Nodes
unreachable = record {
  block_details = err node_failed;
  transaction = λ h. err node_failed;
  first_block = err node_failed;
}

one_row-fits :
    (r : WithdrawalRow)
    → Mem r one_row.withdrawals
    → (0 < r.l2_block_number) × (r.l2_block_number < u64_mod)
one_row-fits r m =
    Or.elim (×_prop le_prop le_prop) (mem-cons.0 m)
      (λ e.
        let five : r.l2_block_number ≡ 5 = ap (λ row. row.l2_block_number) e in
        (omega (arith, five), omega (arith, five)))
      (λ later. absurd (not-mem-nil later))

start_from_l2_block-resumes_example :
    (n : ℕ) × (start_from_l2_block none unreachable false one_row ≡ ok n)
    × ((r : WithdrawalRow) → Mem r one_row.withdrawals → r.l2_block_number ≤ n + 1)
    × ∥ ((r : WithdrawalRow) × Mem r one_row.withdrawals × (r.l2_block_number ≡ n + 1)) ∥₁
start_from_l2_block-resumes_example =
    start_from_l2_block-resumes unreachable one_row eth_row mem-cons_self one_row-fits
