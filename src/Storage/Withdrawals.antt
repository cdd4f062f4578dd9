-- ===== src/Storage/Withdrawals.antt =====
-- storage/src/lib.rs: the statements over `withdrawals`, and the query for withdrawals without
-- finalization data.
pub mod Rows
pub mod NoData
use zksync_withdrawal_finali.Common.{
  unwrap_or, ℕ, ◌+◌, Bool, true, false, ◌&&◌, Option, List, [], ◌∷◌, ◌++◌, map, filter, any, take,
  leb, ltb, ◌==◌, if◌then◌else◌, Perm,
}
use zksync_withdrawal_finali.Client.{WithdrawalEvent, WithdrawalKey}
use zksync_withdrawal_finali.Storage.Tables.{Db, WithdrawalRow, max_of}
use zksync_withdrawal_finali.Storage.Blocks.{last_committed_block}
use mathlib.Core.Option

pub record StoredWithdrawal : Type 0 where
  pub event : WithdrawalEvent
  pub index_in_tx : ℕ

-- The row that `tx_hash` and `event_index_in_tx` select.
abbrev pub at_key : WithdrawalKey → WithdrawalRow → Bool
at_key k row = row.tx_hash == k.tx_hash && row.event_index_in_tx == k.event_index_in_tx

abbrev pub stored_key : StoredWithdrawal → WithdrawalKey
stored_key sw = record { tx_hash = sw.event.tx_hash; event_index_in_tx = sw.index_in_tx }

abbrev pub new_row : ℕ → StoredWithdrawal → WithdrawalRow
new_row id sw = record {
  id = id;
  tx_hash = sw.event.tx_hash;
  l2_block_number = sw.event.block_number;
  token = sw.event.token;
  amount = sw.event.amount;
  event_index_in_tx = sw.index_in_tx;
  finalizable = true;
}

-- INSERT … ON CONFLICT (tx_hash, event_index_in_tx) DO NOTHING, row by row. A skipped row has taken
-- its number from the sequence too.
add_rows : List StoredWithdrawal → ℕ → List WithdrawalRow → List WithdrawalRow
add_rows [] id rows = rows
add_rows (sw ∷ sws) id rows =
    add_rows sws (id + 1)
      (if any (at_key (stored_key sw)) rows then rows else rows ++ new_row id sw ∷ [])

abbrev next_after : List StoredWithdrawal → ℕ → ℕ
next_after [] id = id
next_after (sw ∷ sws) id = next_after sws (id + 1)

unfoldable pub add_withdrawals : Db → List StoredWithdrawal → Db
unfolding add_rows
add_withdrawals db events = record db {
  withdrawals = add_rows events db.next_id db.withdrawals;
  next_id = next_after events db.next_id;
}

unfoldable pub get_withdrawals : Db → List ℕ → List StoredWithdrawal
get_withdrawals db ids =
    map
      (λ r. record {
        event = record {
          tx_hash = r.tx_hash;
          block_number = r.l2_block_number;
          token = r.token;
          amount = r.amount;
        };
        index_in_tx = r.event_index_in_tx;
      })
      (filter (λ r. any (λ id. r.id == id) ids) db.withdrawals)

unfoldable pub last_l2_block_seen : Db → Option ℕ
last_l2_block_seen db = max_of (map (λ r. r.l2_block_number) db.withdrawals)

unfoldable pub set_withdrawal_unfinalizable : Db → ℕ → ℕ → Db
set_withdrawal_unfinalizable db tx_hash event_index_in_tx = record db {
  withdrawals =
      map
        (λ r.
          if r.tx_hash == tx_hash && r.event_index_in_tx == event_index_in_tx
          then record r { finalizable = false }
          else r)
        db.withdrawals;
}

pub record WithdrawalWithBlock : Type 0 where
  pub key : WithdrawalKey
  pub id : ℕ
  pub l2_block_number : ℕ

-- COALESCE (MAX (withdrawal_id), 1)
unfoldable pub last_id_with_data : Db → ℕ
last_id_with_data db = unwrap_or (max_of (map (λ r. r.withdrawal_id) db.finalization_data)) 1

unfoldable pub has_no_data : Db → WithdrawalRow → Bool
has_no_data db r =
    leb r.l2_block_number (last_committed_block db)
    && ltb (last_id_with_data db) r.id
    && r.finalizable

insert_by_block : WithdrawalRow → List WithdrawalRow → List WithdrawalRow
insert_by_block r [] = r ∷ []
insert_by_block r (q ∷ qs) =
    if leb r.l2_block_number q.l2_block_number then r ∷ q ∷ qs else q ∷ insert_by_block r qs

-- ORDER BY l2_block_number
unfoldable pub order_by_block : List WithdrawalRow → List WithdrawalRow
unfolding insert_by_block
order_by_block [] = []
order_by_block (r ∷ rs) = insert_by_block r (order_by_block rs)

abbrev pub with_block : WithdrawalRow → WithdrawalWithBlock
with_block r = record {
  key = record { tx_hash = r.tx_hash; event_index_in_tx = r.event_index_in_tx };
  id = r.id;
  l2_block_number = r.l2_block_number;
}

-- The order in which a table is scanned is the server's choice.
pub record Scan (A : Type 0) : Type 0 where
  pub arrange : List A → List A
  pub arrange_perm : (rows : List A) → Perm (arrange rows) rows

unfoldable pub get_withdrawals_with_no_data : Scan WithdrawalRow → Db → ℕ → List WithdrawalWithBlock
get_withdrawals_with_no_data scan db limit_by =
    map with_block
      (take limit_by (order_by_block (scan.arrange (filter (has_no_data db) db.withdrawals))))
