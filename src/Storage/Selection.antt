-- ===== src/Storage/Selection.antt =====
-- storage/src/lib.rs: the queries that choose the withdrawals to finalize, and the counts.
pub mod Criteria
pub mod Results
pub mod Complete
pub mod Exclusion
use zksync_withdrawal_finali.Common.{
  unwrap_or, ℕ, ◌+◌, Bool, true, not, ◌&&◌, Option, none, some, List, [], ◌∷◌, ◌++◌, map, filter,
  take, length, contains, leb, ltb, ◌==◌, if◌then◌else◌,
}
use zksync_withdrawal_finali.Client.{
  WithdrawalParams, eth_token_address, RequestFinalizeWithdrawal, is_eth,
}
use zksync_withdrawal_finali.Storage.Tables.{Db, WithdrawalRow, FinalizationRow}
use zksync_withdrawal_finali.Storage.Blocks.{last_executed_block, is_some}
use zksync_withdrawal_finali.Storage.Withdrawals.{Scan}
use mathlib.Core.Option

abbrev pub Joined : Type 0
Joined = FinalizationRow × WithdrawalRow

join_row : FinalizationRow → List WithdrawalRow → List Joined
join_row f [] = []
join_row f (w ∷ ws) = if f.withdrawal_id == w.id then (f, w) ∷ join_row f ws else join_row f ws

-- finalization_data JOIN withdrawals w ON finalization_data.withdrawal_id = w.id
unfoldable pub join : List FinalizationRow → List WithdrawalRow → List Joined
unfolding join_row
join [] ws = []
join (f ∷ fs) ws = join_row f ws ++ join fs ws

-- What the three queries share: not finalized, fewer than three failures, and a block no higher than
-- the last executed one (1, if there is none).
unfoldable pub is_pending : Db → Joined → Bool
is_pending db row =
    not (is_some row.0.finalization_tx)
    && ltb row.0.failed_finalization_attempts 3
    && leb row.0.l2_block_number (last_executed_block db)

-- Only ETH withdrawals are held to the threshold. No threshold is a threshold of zero.
unfoldable pub passes_threshold : Option ℕ → Joined → Bool
passes_threshold eth_threshold row =
    if row.1.token == eth_token_address then leb (unwrap_or eth_threshold 0) row.1.amount else true

-- Not attempted in the last minute.
unfoldable pub is_rested : ℕ → Joined → Bool
is_rested now row = elim row.0.last_finalization_attempt [
  | none ↦ true
  | some last ↦ ltb (last + 60) now
]

abbrev pub params_of : Joined → WithdrawalParams
params_of row = record {
  tx_hash = row.1.tx_hash;
  event_index_in_tx = row.1.event_index_in_tx;
  id = row.0.withdrawal_id;
  l2_block_number = row.0.l2_block_number;
  l1_batch_number = row.0.l1_batch_number;
  l2_message_index = row.0.l2_message_index;
  l2_tx_number_in_block = row.0.l2_tx_number_in_block;
  message = row.0.message;
  sender = row.0.sender;
  proof = row.0.proof;
}

-- The rows that the query without a token list takes, before LIMIT.
unfoldable pub eligible : Db → ℕ → Option ℕ → Joined → Bool
unfolding is_pending passes_threshold is_rested
eligible db now eth_threshold row =
    is_pending db row && is_rested now row && passes_threshold eth_threshold row

unfoldable pub eligible_whitelisted : Db → List ℕ → Option ℕ → Joined → Bool
unfolding is_pending passes_threshold
eligible_whitelisted db whitelist eth_threshold row =
    is_pending db row && contains row.1.token whitelist && passes_threshold eth_threshold row

unfoldable pub eligible_not_blacklisted : Db → List ℕ → Option ℕ → Joined → Bool
unfolding is_pending passes_threshold
eligible_not_blacklisted db blacklist eth_threshold row =
    is_pending db row && not (contains row.1.token blacklist) && passes_threshold eth_threshold row

unfoldable pub select : Scan Joined → Db → ℕ → (Joined → Bool) → List WithdrawalParams
unfolding join
select scan db limit_by test =
    map params_of
      (take limit_by (scan.arrange (filter test (join db.finalization_data db.withdrawals))))

unfoldable pub withdrawals_to_finalize : Scan Joined → Db → ℕ → ℕ → Option ℕ → List WithdrawalParams
unfolding select eligible
withdrawals_to_finalize scan db now limit_by eth_threshold =
    select scan db limit_by (eligible db now eth_threshold)

unfoldable pub withdrawals_to_finalize_with_whitelist :
    Scan Joined → Db → ℕ → List ℕ → Option ℕ → List WithdrawalParams
unfolding select eligible_whitelisted
withdrawals_to_finalize_with_whitelist scan db limit_by token_whitelist eth_threshold =
    select scan db limit_by (eligible_whitelisted db token_whitelist eth_threshold)

unfoldable pub withdrawals_to_finalize_with_blacklist :
    Scan Joined → Db → ℕ → List ℕ → Option ℕ → List WithdrawalParams
unfolding select eligible_not_blacklisted
withdrawals_to_finalize_with_blacklist scan db limit_by token_blacklist eth_threshold =
    select scan db limit_by (eligible_not_blacklisted db token_blacklist eth_threshold)

unfoldable pub get_unexecuted_withdrawals_count : Db → Option ℕ → ℕ
unfolding join
get_unexecuted_withdrawals_count db eth_threshold = length (
    filter
      (λ row.
        not (is_some row.0.finalization_tx)
        && ltb (last_executed_block db) row.0.l2_block_number
        && row.1.token == eth_token_address
        && leb (unwrap_or eth_threshold 0) row.1.amount)
      (join db.finalization_data db.withdrawals))

unfoldable pub get_executed_and_not_finalized_withdrawals_count : Db → ℕ
unfolding join
get_executed_and_not_finalized_withdrawals_count db = length (
    filter
      (λ row.
        not (is_some row.0.finalization_tx)
        && row.0.failed_finalization_attempts == 0
        && leb row.0.l2_block_number (last_executed_block db)
        && row.1.token == eth_token_address)
      (join db.finalization_data db.withdrawals))

abbrev first {ℓ} : {A : Type ℓ} → List A → Option A
first [] = none
first (a ∷ as') = some a

unfoldable pub get_finalize_withdrawal_params : Db → ℕ → ℕ → Option RequestFinalizeWithdrawal
unfolding join
get_finalize_withdrawal_params db id gas =
    Option.map
      (λ row. record {
        l_2_block_number = row.0.l1_batch_number;
        l_2_message_index = row.0.l2_message_index;
        l_2_tx_number_in_block = row.0.l2_tx_number_in_block;
        message = row.0.message;
        merkle_proof = row.0.proof;
        is_eth = is_eth row.1.token;
        gas = gas;
      })
      (first (filter (λ row. row.0.withdrawal_id == id) (join db.finalization_data db.withdrawals)))
