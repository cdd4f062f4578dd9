-- ===== src/Storage/Events.antt =====
-- storage/src/lib.rs: the statements over `l2_to_l1_events`, and the withdrawals of an address.
pub mod Rows
use zksync_withdrawal_finali.Common.{
  ℕ, ◌+◌, Bool, ◌&&◌, ◌||◌, Option, none, some, List, [], ◌∷◌, ◌++◌, map, filter, any, take, ◌==◌,
  leb, if◌then◌else◌,
}
use zksync_withdrawal_finali.Client.Contract.{L2ToL1Event}
use zksync_withdrawal_finali.Storage.Tables.{Db, L2ToL1EventRow, FinalizationRow, max_of}
use zksync_withdrawal_finali.Storage.Blocks.{is_some}
use zksync_withdrawal_finali.Storage.Withdrawals.{Scan}
use zksync_withdrawal_finali.Storage.Selection.{Joined, join}

abbrev pub event_row : L2ToL1Event → L2ToL1EventRow
event_row e = record {
  l1_token_addr = e.token;
  to_address = e.to;
  amount = e.amount;
  l1_block_number = e.l1_block_number;
  l2_block_number = e.l2_block_number;
  tx_number_in_block = e.tx_number_in_block;
}

abbrev pub same_event : L2ToL1EventRow → L2ToL1EventRow → Bool
same_event a b =
    a.l1_block_number == b.l1_block_number
    && a.l2_block_number == b.l2_block_number
    && a.tx_number_in_block == b.tx_number_in_block

-- ON CONFLICT (l1_block_number, l2_block_number, tx_number_in_block) DO NOTHING, row by row.
unfoldable pub add_events : List L2ToL1Event → List L2ToL1EventRow → List L2ToL1EventRow
add_events [] rows = rows
add_events (e ∷ es) rows =
    add_events es (if any (same_event (event_row e)) rows then rows else rows ++ event_row e ∷ [])

unfoldable pub l2_to_l1_events : Db → List L2ToL1Event → Db
unfolding add_events
l2_to_l1_events db events = record db { l2_to_l1_events = add_events events db.l2_to_l1_events }

unfoldable pub last_l2_to_l1_events_block_seen : Db → Option ℕ
last_l2_to_l1_events_block_seen db = max_of (map (λ r. r.l1_block_number) db.l2_to_l1_events)

pub data FinalizationStatus : Type 0 where
  finalized not_finalized : FinalizationStatus

pub record UserWithdrawal : Type 0 where
  pub tx_hash : ℕ
  pub token : ℕ
  pub amount : ℕ
  pub status : FinalizationStatus

abbrev pub Sighting : Type 0
Sighting = L2ToL1EventRow × Joined

abbrev belongs : L2ToL1EventRow → Joined → Bool
belongs e row =
    row.0.l1_batch_number == e.l2_block_number
    && row.0.l2_tx_number_in_block == e.tx_number_in_block

-- JOIN finalization_data ON … JOIN withdrawals ON …
abbrev join_events : List L2ToL1EventRow → List Joined → List Sighting
join_events [] rows = []
join_events (e ∷ es) rows = map (λ row. (e, row)) (filter (belongs e) rows) ++ join_events es rows

insert_descending : Sighting → List Sighting → List Sighting
insert_descending s [] = s ∷ []
insert_descending s (q ∷ qs) =
    if leb q.0.l2_block_number s.0.l2_block_number then s ∷ q ∷ qs else q ∷ insert_descending s qs

-- ORDER BY l2_to_l1_events.l2_block_number DESC
unfoldable pub order_descending : List Sighting → List Sighting
unfolding insert_descending
order_descending [] = []
order_descending (s ∷ ss) = insert_descending s (order_descending ss)

abbrev pub user_withdrawal : Sighting → UserWithdrawal
user_withdrawal s = record {
  tx_hash = s.1.1.tx_hash;
  token = s.0.l1_token_addr;
  amount = s.0.amount;
  status = if is_some s.1.0.finalization_tx then finalized else not_finalized;
}

unfoldable pub withdrawals_for_address : Scan Sighting → Db → ℕ → ℕ → List UserWithdrawal
unfolding join order_descending
withdrawals_for_address scan db address limit = map user_withdrawal (
    take limit (
      order_descending (
        scan.arrange (
          filter (λ s. s.0.to_address == address || s.1.0.sender == address)
            (join_events db.l2_to_l1_events (join db.finalization_data db.withdrawals))))))
