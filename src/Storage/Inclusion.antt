-- ===== src/Storage/Inclusion.antt =====
-- storage/src/lib.rs: in which L1 blocks a withdrawal was committed, verified and executed.
use zksync_withdrawal_finali.Common.{ℕ, Option, List, [], ◌∷◌, ◌++◌, filter, ◌==◌, ◌&&◌, and_then}
use zksync_withdrawal_finali.Storage.Tables.{Db, WithdrawalRow, L2BlockRow}
use zksync_withdrawal_finali.Storage.Withdrawals.{Scan}
use zksync_withdrawal_finali.Storage.Tokens.{first_row}

-- withdrawals JOIN l2_blocks ON l2_blocks.l2_block_number = withdrawals.l2_block_number, of the
-- withdrawals with the transaction hash.
unfoldable pub blocks_of : ℕ → List WithdrawalRow → List L2BlockRow → List L2BlockRow
blocks_of tx_hash [] blocks = []
blocks_of tx_hash (w ∷ ws) blocks =
    filter (λ b. w.tx_hash == tx_hash && b.l2_block_number == w.l2_block_number) blocks
    ++ blocks_of tx_hash ws blocks

-- The first row that the server finds, if any, and its column, if it is not NULL.
unfoldable pub withdrawal_committed_in_block : Scan L2BlockRow → Db → ℕ → Option ℕ
unfolding blocks_of
withdrawal_committed_in_block scan db tx_hash =
    and_then (first_row (scan.arrange (blocks_of tx_hash db.withdrawals db.l2_blocks)))
      λ b. b.commit_l1_block_number

unfoldable pub withdrawal_verified_in_block : Scan L2BlockRow → Db → ℕ → Option ℕ
unfolding blocks_of
withdrawal_verified_in_block scan db tx_hash =
    and_then (first_row (scan.arrange (blocks_of tx_hash db.withdrawals db.l2_blocks)))
      λ b. b.verify_l1_block_number

unfoldable pub withdrawal_executed_in_block : Scan L2BlockRow → Db → ℕ → Option ℕ
unfolding blocks_of
withdrawal_executed_in_block scan db tx_hash =
    and_then (first_row (scan.arrange (blocks_of tx_hash db.withdrawals db.l2_blocks)))
      λ b. b.execute_l1_block_number
