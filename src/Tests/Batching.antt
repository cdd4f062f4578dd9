-- ===== src/Tests/Batching.antt =====
-- The accumulator of finalizer/src/accumulator.rs with two withdrawals.
use zksync_withdrawal_finali.Common.{
  ◌≡◌, refl, inr, true, none, some, List, [], ◌∷◌, ◌++◌, Perm, any, arith, if◌then◌else◌,
}
use zksync_withdrawal_finali.Common.BTreeMap
use zksync_withdrawal_finali.Common.BTreeMap.{Key, IsSorted, same_key}
use zksync_withdrawal_finali.Client.{WithdrawalParams, FinalizeResult}
use zksync_withdrawal_finali.Accumulator.{WithdrawalsAccumulator, withdrawals, remove_unsuccessful}
use zksync_withdrawal_finali.Accumulator.Removal.{remove_unsuccessful-splits}
use zksync_withdrawal_finali.Tests.Data.{eth_params, token_params}

abbrev two_held : WithdrawalsAccumulator
two_held = record {
  gas_price = 10;
  tx_fee_limit = 100000;
  batch_finalization_gas_limit = 900;
  one_withdrawal_gas_limit = 300;
  withdrawals = ((4, 6), eth_params) ∷ ((4, 7), token_params) ∷ [];
}

abbrev failing : FinalizeResult
failing = record { l_2_block_number = 4; l_2_message_index = 7; gas = 10; success = true }

remove_unsuccessful-splits_example :
    (r : List WithdrawalParams × WithdrawalsAccumulator) × (remove_unsuccessful
        (failing ∷ [])
        two_held
      ≡ some r)
    × Perm (r.0 ++ withdrawals r.1) (withdrawals two_held)
    × ((j : Key)
        → BTreeMap.get j r.1.withdrawals ≡ (
            if any (λ k. same_key k j) ((4, 7) ∷ [])
            then none
            else BTreeMap.get j two_held.withdrawals))
remove_unsuccessful-splits_example =
    remove_unsuccessful-splits (failing ∷ []) ((4, 7) ∷ []) two_held (inr (refl, omega arith), tt)
      refl
