-- ===== src/Storage/Blocks.antt =====
-- storage/src/lib.rs: the statements over `l2_blocks`.
pub mod Ranges
use zksync_withdrawal_finali.Common.{
  unwrap_or, ℕ, zero, suc, ◌+◌, ◌-◌, Option, none, some, List, [], ◌∷◌, Bool, true, false, map,
  filter, ◌==◌, if◌then◌else◌,
}
use zksync_withdrawal_finali.Storage.Tables.{Db, L2BlockRow, max_of}
use mathlib.Core.Option

-- `batch_start..=batch_end`
abbrev range_from : ℕ → ℕ → List ℕ
range_from n zero = []
range_from n (suc count) = n ∷ range_from (n + 1) count

abbrev pub range : ℕ → ℕ → List ℕ
range batch_start batch_end = range_from batch_start (batch_end + 1 - batch_start)

abbrev pub empty_block : ℕ → L2BlockRow
empty_block n = record {
  l2_block_number = n;
  commit_l1_block_number = none;
  verify_l1_block_number = none;
  execute_l1_block_number = none;
}

-- INSERT … ON CONFLICT (l2_block_number) DO UPDATE, of one row.
unfoldable pub upsert : (L2BlockRow → L2BlockRow) → ℕ → List L2BlockRow → List L2BlockRow
upsert update n [] = update (empty_block n) ∷ []
upsert update n (row ∷ rows) =
    if row.l2_block_number == n then update row ∷ rows else row ∷ upsert update n rows

unfoldable pub upsert_all : (L2BlockRow → L2BlockRow) → List ℕ → List L2BlockRow → List L2BlockRow
upsert_all update [] rows = rows
upsert_all update (n ∷ ns) rows = upsert_all update ns (upsert update n rows)

unfoldable pub committed_new_batch : Db → ℕ → ℕ → ℕ → Db
committed_new_batch db batch_start batch_end l1_block_number = record db {
  l2_blocks =
      upsert_all (λ row. record row { commit_l1_block_number = some l1_block_number })
        (range batch_start batch_end) db.l2_blocks;
}

unfoldable pub verified_new_batch : Db → ℕ → ℕ → ℕ → Db
verified_new_batch db batch_start batch_end l1_block_number = record db {
  l2_blocks =
      upsert_all (λ row. record row { verify_l1_block_number = some l1_block_number })
        (range batch_start batch_end) db.l2_blocks;
}

unfoldable pub executed_new_batch : Db → ℕ → ℕ → ℕ → Db
executed_new_batch db batch_start batch_end l1_block_number = record db {
  l2_blocks =
      upsert_all (λ row. record row { execute_l1_block_number = some l1_block_number })
        (range batch_start batch_end) db.l2_blocks;
}

abbrev pub is_some {ℓ} : {A : Type ℓ} → Option A → Bool
is_some none = false
is_some (some a) = true

-- COALESCE (MAX (l2_block_number) of the executed blocks, 1), and of the committed ones.
unfoldable pub last_executed_block : Db → ℕ
last_executed_block db =
    unwrap_or
      (max_of (
        map (λ r. r.l2_block_number)
          (filter (λ r. is_some r.execute_l1_block_number) db.l2_blocks)))
      1

unfoldable pub last_committed_block : Db → ℕ
last_committed_block db =
    unwrap_or
      (max_of (
        map (λ r. r.l2_block_number) (filter (λ r. is_some r.commit_l1_block_number) db.l2_blocks)))
      1

abbrev catenate : List (Option ℕ) → List ℕ
catenate [] = []
catenate (none ∷ os) = catenate os
catenate (some n ∷ os) = n ∷ catenate os

-- MAX (commit_l1_block_number), which skips NULL.
unfoldable pub last_l1_block_seen : Db → Option ℕ
last_l1_block_seen db = max_of (catenate (map (λ r. r.commit_l1_block_number) db.l2_blocks))
