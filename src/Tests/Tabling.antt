-- ===== src/Tests/Tabling.antt =====
-- The tokens, the events and the deletion of storage/src/lib.rs on the sample tables.
use zksync_withdrawal_finali.Common.{◌≡◌, refl, some, [], ◌∷◌, any, arith, ok, if◌then◌else◌}
use zksync_withdrawal_finali.Storage.Tables.{empty}
use zksync_withdrawal_finali.Storage.Tokens.{
  L2TokenInitEvent, add_token, token_decimals_and_l1_address,
}
use zksync_withdrawal_finali.Storage.Tokens.Lookup.{token_decimals_and_l1_address-add_token}
use zksync_withdrawal_finali.Client.Contract.{L2ToL1Event}
use zksync_withdrawal_finali.Storage.Events.{event_row, same_event, l2_to_l1_events}
use zksync_withdrawal_finali.Storage.Events.Rows.{event_at, first_seen, event_at-l2_to_l1_events}
use zksync_withdrawal_finali.Storage.Inclusion.{withdrawal_committed_in_block}
use zksync_withdrawal_finali.Storage.Wipes.{Scans, delete_db_content}
use zksync_withdrawal_finali.Storage.Wipes.Empties.{delete_db_content-empties}
use zksync_withdrawal_finali.Tests.Data.{as_stored, sample}

abbrev token : L2TokenInitEvent
token = record {
  l1_token_address = 8;
  l2_token_address = 9;
  name = "Token";
  symbol = "TKN";
  decimals = 6;
  l2_block_number = 4;
  initialization_transaction = 70;
}

token_decimals_and_l1_address-add_token_example :
    token_decimals_and_l1_address as_stored (add_token sample token) 9 ≡ some (6, 8)
token_decimals_and_l1_address-add_token_example =
    token_decimals_and_l1_address-add_token as_stored sample token refl

abbrev event : L2ToL1Event
event = record {
  token = 8;
  to = 33;
  amount = 1;
  l1_block_number = 10;
  l2_block_number = 4;
  tx_number_in_block = 1;
}

event_at-l2_to_l1_events_example :
    event_at (event_row event) (l2_to_l1_events sample (event ∷ event ∷ [])).l2_to_l1_events ≡ (
      if any (same_event (event_row event)) sample.l2_to_l1_events
      then event_at (event_row event) sample.l2_to_l1_events
      else first_seen (event_row event) (event ∷ event ∷ []))
event_at-l2_to_l1_events_example =
    event_at-l2_to_l1_events sample (event ∷ event ∷ []) (event_row event)

abbrev scans : Scans
scans = record {
  withdrawals = as_stored;
  l2_blocks = as_stored;
  finalization_data = as_stored;
  l2_to_l1_events = as_stored;
}

delete_db_content-empties_example :
    delete_db_content scans 1 5 sample ≡ ok (record empty { next_id = 4 })
delete_db_content-empties_example =
    delete_db_content-empties scans 1 5 sample (omega arith) (omega arith) (omega arith)
      (omega arith) (omega arith)

committed_in_block : withdrawal_committed_in_block as_stored sample 77 ≡ some 10
unfolding withdrawal_committed_in_block
committed_in_block = refl
