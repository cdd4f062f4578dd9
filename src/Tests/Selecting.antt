-- ===== src/Tests/Selecting.antt =====
-- The queries of storage/src/lib.rs on the sample tables.
use mathlib.Core.List.{Mem, mem-cons_self, not-mem-nil}
use zksync_withdrawal_finali.Common.{
  ℕ, ◌+◌, ◌≤◌, ◌<◌, ◌≡◌, ◌⊎◌, refl, none, some, List, [], ◌∷◌, length, arith, map,
}
use zksync_withdrawal_finali.Client.{key, eth_token_address}
use zksync_withdrawal_finali.Storage.Tables.{WithdrawalRow}
use zksync_withdrawal_finali.Storage.Blocks.{last_executed_block}
use zksync_withdrawal_finali.Storage.Withdrawals.{get_withdrawals_with_no_data, with_block}
use zksync_withdrawal_finali.Storage.Withdrawals.NoData.{
  IsNew, InOrder, get_withdrawals_with_no_data-IsNew,
}
use zksync_withdrawal_finali.Storage.Finalization.{finalization_data_set_finalized_in_tx}
use zksync_withdrawal_finali.Storage.Selection.{
  Joined, params_of, withdrawals_to_finalize, withdrawals_to_finalize_with_whitelist,
  withdrawals_to_finalize_with_blacklist,
}
use zksync_withdrawal_finali.Storage.Selection.Results.{
  IsFinalizable, withdrawals_to_finalize-IsFinalizable, whitelist-IsFinalizable,
  blacklist-IsFinalizable,
}
use zksync_withdrawal_finali.Storage.Selection.Complete.{
  IsDue, withdrawals_to_finalize_complete, whitelist_complete, blacklist_complete,
}
use zksync_withdrawal_finali.Storage.Selection.Exclusion.{
  inc_all, finalized-not-returned, failed-not-returned,
}
use zksync_withdrawal_finali.Tests.Data.{
  as_stored, sample, data_of_params, eth_row, block_5, without_data, eth_params, eth_key,
  token_params,
}

finalized-not-returned_example :
    let db' = finalization_data_set_finalized_in_tx sample (eth_key ∷ []) 5000 in
    (¬ Mem eth_params (withdrawals_to_finalize as_stored db' 1000 50 (some 7)))
    × (¬ Mem eth_params
        (withdrawals_to_finalize_with_whitelist as_stored db' 50 (eth_token_address ∷ []) (some 7)))
    × (¬ Mem eth_params
        (withdrawals_to_finalize_with_blacklist as_stored db' 50 (eth_token_address ∷ []) (some 7)))
unfolding key
finalized-not-returned_example =
    finalized-not-returned as_stored sample (eth_key ∷ []) 5000 1000 50 (eth_token_address ∷ [])
      (some 7) eth_params mem-cons_self

failed-not-returned_example :
    let db' = inc_all sample (eth_key ∷ []) (200 ∷ 300 ∷ 400 ∷ []) in
    (¬ Mem eth_params (withdrawals_to_finalize as_stored db' 1000 50 none))
    × (¬ Mem eth_params
        (withdrawals_to_finalize_with_whitelist as_stored db' 50 (eth_token_address ∷ []) none))
    × (¬ Mem eth_params
        (withdrawals_to_finalize_with_blacklist as_stored db' 50 (eth_token_address ∷ []) none))
unfolding key
failed-not-returned_example =
    failed-not-returned as_stored sample (eth_key ∷ []) (200 ∷ 300 ∷ 400 ∷ []) 1000 50
      (eth_token_address ∷ []) none eth_params (omega arith) mem-cons_self

withdrawals_to_finalize-IsFinalizable_example : ∥ (
    (row : Joined) × (params_of row ≡ eth_params)
    × IsFinalizable sample (some 50) row
    × ((last : ℕ) → row.0.last_finalization_attempt ≡ some last → last + 60 < 1000)) ∥₁
unfolding withdrawals_to_finalize last_executed_block
withdrawals_to_finalize-IsFinalizable_example =
    withdrawals_to_finalize-IsFinalizable as_stored sample 1000 50 (some 50) eth_params
      mem-cons_self

whitelist-IsFinalizable_example : ∥ (
    (row : Joined) × (params_of row ≡ token_params)
    × IsFinalizable sample (some 50) row
    × Mem row.1.token (9 ∷ [])) ∥₁
unfolding withdrawals_to_finalize_with_whitelist last_executed_block
whitelist-IsFinalizable_example =
    whitelist-IsFinalizable as_stored sample 50 (9 ∷ []) (some 50) token_params mem-cons_self

blacklist-IsFinalizable_example : ∥ (
    (row : Joined) × (params_of row ≡ eth_params)
    × IsFinalizable sample none row
    × (Mem row.1.token (9 ∷ []) → ⊥)) ∥₁
unfolding withdrawals_to_finalize_with_blacklist last_executed_block
blacklist-IsFinalizable_example =
    blacklist-IsFinalizable as_stored sample 50 (9 ∷ []) none eth_params mem-cons_self

-- The row of the withdrawal of ETH; its block is executed.
abbrev eth_joined : Joined
eth_joined = (data_of_params eth_params, eth_row)

eth_joined-IsDue : IsDue sample (some 50) eth_joined
eth_joined-IsDue = record {
  joins = record { has_data = mem-cons_self; is_stored = mem-cons_self; same_id = refl };
  not_finalized = refl;
  attempts_left = omega arith;
  block = block_5;
  has_block = mem-cons_self;
  executed = λ e. cc;
  not_later = omega arith;
  large_enough = λ e. omega arith;
}

withdrawals_to_finalize_complete_example :
    Mem eth_params (withdrawals_to_finalize as_stored sample 1000 50 (some 50))
    ⊎ (length (withdrawals_to_finalize as_stored sample 1000 50 (some 50)) ≡ 50)
withdrawals_to_finalize_complete_example =
    withdrawals_to_finalize_complete as_stored sample 1000 50 (some 50) eth_joined eth_joined-IsDue
      (λ last e. let at : 100 ≡ last = cc in omega arith)

whitelist_complete_example :
    Mem eth_params (
      withdrawals_to_finalize_with_whitelist as_stored sample 50 (eth_token_address ∷ []) (some 50))
    ⊎ (length (
          withdrawals_to_finalize_with_whitelist as_stored sample 50
            (eth_token_address ∷ [])
            (some 50))
        ≡ 50)
whitelist_complete_example =
    whitelist_complete as_stored sample 50 (eth_token_address ∷ []) (some 50) eth_joined
      eth_joined-IsDue mem-cons_self

blacklist_complete_example :
    Mem eth_params (withdrawals_to_finalize_with_blacklist as_stored sample 50 [] (some 50))
    ⊎ (length (withdrawals_to_finalize_with_blacklist as_stored sample 50 [] (some 50)) ≡ 50)
blacklist_complete_example =
    blacklist_complete as_stored sample 50 [] (some 50) eth_joined eth_joined-IsDue not-mem-nil

get_withdrawals_with_no_data-IsNew_example :
    (rows : List WithdrawalRow) × (get_withdrawals_with_no_data as_stored without_data 10
      ≡ map with_block rows)
    × (length rows ≤ 10)
    × InOrder rows
    × ((row : WithdrawalRow)
        → Mem row rows
        → IsNew without_data row × (without_data.finalization_data ≡ [] → 1 < row.id))
get_withdrawals_with_no_data-IsNew_example =
    get_withdrawals_with_no_data-IsNew as_stored without_data 10
