-- ===== src/Storage/Blocks/Ranges.antt =====
-- storage/src/lib.rs: what recording a batch does to each block.
use zksync_withdrawal_finali.Common.{
  unwrap_or, ℕ, zero, suc, ◌+◌, ◌-◌, ◌≡◌, refl, ◌&&◌, Option, none, some, List, [], ◌∷◌, leb, ltb,
  ◌==◌, if◌then◌else◌, arith,
}
use zksync_withdrawal_finali.Storage.Tables.{Db, L2BlockRow}
use zksync_withdrawal_finali.Storage.Blocks.{
  range_from, range, empty_block, upsert, upsert_all, committed_new_batch, verified_new_batch,
  executed_new_batch,
}

-- The row of a block, an empty one if there is none.
abbrev pub block_in : ℕ → List L2BlockRow → Option L2BlockRow
block_in n [] = none
block_in n (row ∷ rows) = if row.l2_block_number == n then some row else block_in n rows

-- An update that keeps the key of the row.
abbrev KeepsNumber : (L2BlockRow → L2BlockRow) → Type 0
KeepsNumber update = (row : L2BlockRow) → (update row).l2_block_number ≡ row.l2_block_number

abbrev updated : (L2BlockRow → L2BlockRow) → ℕ → Option L2BlockRow → Option L2BlockRow
updated update n row = some (update (unwrap_or row (empty_block n)))

block_in-upsert :
    (update : L2BlockRow → L2BlockRow) (n b : ℕ) (rows : List L2BlockRow)
    → KeepsNumber update
    → block_in b (upsert update n rows)
      ≡ (if n == b then updated update b (block_in b rows) else block_in b rows)
unfolding upsert
block_in-upsert update n b [] k = ground (arith, k (empty_block n), n == b)
block_in-upsert update n b (row ∷ rows) k = ground (arith, k row, block_in-upsert update n b rows k)

block_in-upsert_all :
    (update : L2BlockRow → L2BlockRow) (n count b : ℕ) (rows : List L2BlockRow)
    → KeepsNumber update
    → block_in b (upsert_all update (range_from n count) rows) ≡ (
        if leb n b && ltb b (n + count)
        then updated update b (block_in b rows)
        else block_in b rows)
unfolding upsert_all
block_in-upsert_all update n zero b rows k = ground arith
block_in-upsert_all update n (suc count) b rows k = ground (
  arith,
  block_in-upsert update n b rows k,
  block_in-upsert_all update (n + 1) count b (upsert update n rows) k,
)

block_in-range :
    (update : L2BlockRow → L2BlockRow) (s e b : ℕ) (rows : List L2BlockRow)
    → KeepsNumber update
    → block_in b (upsert_all update (range s e) rows)
      ≡ (if leb s b && leb b e then updated update b (block_in b rows) else block_in b rows)
block_in-range update s e b rows k =
    ground (arith, block_in-upsert_all update s (e + 1 - s) b rows k)

-- The row of a block that is new to the table.
abbrev pub row_or_new : ℕ → Option L2BlockRow → L2BlockRow
row_or_new b row = unwrap_or row (empty_block b)

-- `committed_new_batch` sets the commit block of every L2 block from the first to the last of the
-- batch, making the row where there was none; it keeps the other columns of those rows, and every
-- other row.
block_in-committed_new_batch :
    (db : Db) (s e l1_block b : ℕ)
    → block_in b (committed_new_batch db s e l1_block).l2_blocks ≡ (
        if leb s b && leb b e
        then some (record (row_or_new b (block_in b db.l2_blocks)) {
          commit_l1_block_number = some l1_block;
        })
        else block_in b db.l2_blocks)
unfolding committed_new_batch
block_in-committed_new_batch db s e l1_block b =
    block_in-range (λ row. record row { commit_l1_block_number = some l1_block }) s e b db.l2_blocks
      (λ row. refl)

-- `verified_new_batch` sets the verification block of every L2 block from the first to the last of
-- the batch, making the row where there was none; it keeps the other columns of those rows, and
-- every other row.
block_in-verified_new_batch :
    (db : Db) (s e l1_block b : ℕ)
    → block_in b (verified_new_batch db s e l1_block).l2_blocks ≡ (
        if leb s b && leb b e
        then some (record (row_or_new b (block_in b db.l2_blocks)) {
          verify_l1_block_number = some l1_block;
        })
        else block_in b db.l2_blocks)
unfolding verified_new_batch
block_in-verified_new_batch db s e l1_block b =
    block_in-range (λ row. record row { verify_l1_block_number = some l1_block }) s e b db.l2_blocks
      (λ row. refl)

-- `executed_new_batch` sets the execution block of every L2 block from the first to the last of the
-- batch, making the row where there was none; it keeps the other columns of those rows, and every
-- other row.
block_in-executed_new_batch :
    (db : Db) (s e l1_block b : ℕ)
    → block_in b (executed_new_batch db s e l1_block).l2_blocks ≡ (
        if leb s b && leb b e
        then some (record (row_or_new b (block_in b db.l2_blocks)) {
          execute_l1_block_number = some l1_block;
        })
        else block_in b db.l2_blocks)
unfolding executed_new_batch
block_in-executed_new_batch db s e l1_block b =
    block_in-range (λ row. record row { execute_l1_block_number = some l1_block }) s e b
      db.l2_blocks (λ row. refl)

-- Each of committed_new_batch, verified_new_batch and executed_new_batch sets its own block on L1 of
-- every L2 block from the first to the last of the batch, making the row where there was none; it
-- keeps the other columns of those rows, and every other row.
pub block_in-new_batch :
    (db : Db) (s e l1_block b : ℕ)
    → (block_in b (committed_new_batch db s e l1_block).l2_blocks ≡ (
        if leb s b && leb b e
        then some (record (row_or_new b (block_in b db.l2_blocks)) {
          commit_l1_block_number = some l1_block;
        })
        else block_in b db.l2_blocks))
      × (block_in b (verified_new_batch db s e l1_block).l2_blocks ≡ (
          if leb s b && leb b e
          then some (record (row_or_new b (block_in b db.l2_blocks)) {
            verify_l1_block_number = some l1_block;
          })
          else block_in b db.l2_blocks))
      × (block_in b (executed_new_batch db s e l1_block).l2_blocks ≡ (
          if leb s b && leb b e
          then some (record (row_or_new b (block_in b db.l2_blocks)) {
            execute_l1_block_number = some l1_block;
          })
          else block_in b db.l2_blocks))
block_in-new_batch db s e l1_block b = (
  block_in-committed_new_batch db s e l1_block b,
  block_in-verified_new_batch db s e l1_block b,
  block_in-executed_new_batch db s e l1_block b,
)

-- Each block reads the same whichever of a commitment and an execution, of any two ranges, is
-- recorded first.
pub commit-execute_comm :
    (db : Db) (s e l1_block s' e' l1_block' b : ℕ)
    → block_in b
        (executed_new_batch (committed_new_batch db s e l1_block) s' e' l1_block').l2_blocks
      ≡ block_in b
          (committed_new_batch (executed_new_batch db s' e' l1_block') s e l1_block).l2_blocks
commit-execute_comm db s e l1_block s' e' l1_block' b = ground (
  arith,
  block_in-committed_new_batch db s e l1_block b,
  block_in-executed_new_batch db s' e' l1_block' b,
  block_in-executed_new_batch (committed_new_batch db s e l1_block) s' e' l1_block' b,
  block_in-committed_new_batch (executed_new_batch db s' e' l1_block') s e l1_block b,
)
