-- ===== src/Accumulator.antt =====
-- finalizer/src/accumulator.rs: the withdrawals collected for one call of the finalizer contract.
pub mod Removal
pub mod Unnamed
pub mod Room
use zksync_withdrawal_finali.Common.{
  ℕ, Bool, true, false, Option, none, some, List, [], ◌∷◌, length, leb, and_then, mul_u256, as_u64,
}
use zksync_withdrawal_finali.Common.BTreeMap
use zksync_withdrawal_finali.Common.BTreeMap.{Key}
use zksync_withdrawal_finali.Client.{WithdrawalParams, FinalizeResult}
use mathlib.Core.Option

pub record WithdrawalsAccumulator : Type 0 where
  pub gas_price : ℕ
  pub tx_fee_limit : ℕ
  pub batch_finalization_gas_limit : ℕ
  pub one_withdrawal_gas_limit : ℕ
  pub withdrawals : List (Key × WithdrawalParams)

unfoldable pub new : ℕ → ℕ → ℕ → ℕ → WithdrawalsAccumulator
new gas_price tx_fee_limit batch_finalization_gas_limit one_withdrawal_gas_limit = record {
  gas_price = gas_price;
  tx_fee_limit = tx_fee_limit;
  batch_finalization_gas_limit = batch_finalization_gas_limit;
  one_withdrawal_gas_limit = one_withdrawal_gas_limit;
  withdrawals = [];
}

-- The map is taken and left empty.
unfoldable pub take_withdrawals :
    WithdrawalsAccumulator → List WithdrawalParams × WithdrawalsAccumulator
take_withdrawals a = (BTreeMap.values a.withdrawals, record a { withdrawals = [] })

abbrev pub withdrawals : WithdrawalsAccumulator → List WithdrawalParams
withdrawals a = BTreeMap.values a.withdrawals

abbrev pub map_key : WithdrawalParams → Key
map_key w = (w.l1_batch_number, w.l2_message_index)

unfoldable pub add_withdrawal : WithdrawalsAccumulator → WithdrawalParams → WithdrawalsAccumulator
unfolding BTreeMap.insert
add_withdrawal a w = record a { withdrawals = BTreeMap.insert (map_key w) w a.withdrawals }

-- The key that a result names, if both numbers fit a u64 (`as_u64` panics if not).
abbrev pub result_key : FinalizeResult → Option Key
result_key u =
    and_then (as_u64 u.l_2_block_number) λ b. Option.map (λ i. (b, i)) (as_u64 u.l_2_message_index)

-- One round of the loop: what is removed, before what later rounds remove.
push_removed : Option WithdrawalParams → List WithdrawalParams → List WithdrawalParams
push_removed none result = result
push_removed (some wp) result = wp ∷ result

unfoldable pub remove_unsuccessful :
    List FinalizeResult
    → WithdrawalsAccumulator
    → Option (List WithdrawalParams × WithdrawalsAccumulator)
unfolding push_removed BTreeMap.remove BTreeMap.get
remove_unsuccessful [] a = some ([], a)
remove_unsuccessful (u ∷ us) a = and_then (result_key u) λ k.
    Option.map (λ r. (push_removed (BTreeMap.get k a.withdrawals) r.0, r.1))
      (remove_unsuccessful us (record a { withdrawals = BTreeMap.remove k a.withdrawals }))

-- `none` is a panic on overflow of U256.
unfoldable pub current_gas_usage : WithdrawalsAccumulator → Option ℕ
current_gas_usage a = mul_u256 a.one_withdrawal_gas_limit (length a.withdrawals)

-- `||` looks at the fee only if the gas limit is not reached.
unfoldable pub ready_to_finalize : WithdrawalsAccumulator → Option Bool
unfolding current_gas_usage
ready_to_finalize a = and_then (current_gas_usage a) λ usage.
    elim (leb a.batch_finalization_gas_limit usage) [
      | true ↦ some true
      | false ↦ Option.map (λ fee. leb a.tx_fee_limit fee) (mul_u256 usage a.gas_price)
    ]
