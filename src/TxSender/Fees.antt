-- ===== src/TxSender/Fees.antt =====
-- tx-sender/src/lib.rs: what a bump does to the fees.
use zksync_withdrawal_finali.Common.{
  unwrap_or, ℕ, ◌+◌, ◌*◌, ◌/◌, ◌≤◌, ◌<◌, ◌≡◌, Option, none, some, ok, u256_mod, arith,
}
use zksync_withdrawal_finali.TxSender.{
  Middleware, TransactionRequest, Eip1559TransactionRequest, TypedTransaction, legacy, eip2930,
  eip1559, inc_u256_percent, retry_bump_fees_percent, bump_predicted_fees,
}

-- A legacy price grows by `percent` hundredths, rounded down, if neither the product nor the sum
-- overflows.
pub bump_predicted_fees-legacy :
    (m : Middleware) (n percent price : ℕ) (tx : TransactionRequest)
    → tx.gas_price ≡ some price
    → price * percent < u256_mod
    → price + price * percent / 100 < u256_mod
    → bump_predicted_fees m n percent (legacy tx)
      ≡ ok (legacy (record tx { gas_price = some (price + price * percent / 100) }))
unfolding bump_predicted_fees inc_u256_percent
bump_predicted_fees-legacy m n percent price tx e h k = ground arith

-- A fee is not lowered and does not vanish.
abbrev pub NotLower : Option ℕ → Option ℕ → Type 0
NotLower none b = b ≡ none
NotLower (some a) none = ⊥
NotLower (some a) (some b) = a ≤ b

abbrev pub gas_price_of : TypedTransaction → Option ℕ
gas_price_of (legacy tx) = tx.gas_price
gas_price_of (eip2930 tx) = tx.gas_price
gas_price_of (eip1559 tx) = none

abbrev pub priority_fee_of : TypedTransaction → Option ℕ
priority_fee_of (eip1559 tx) = tx.max_priority_fee_per_gas
priority_fee_of tx = none

abbrev pub max_fee_of : TypedTransaction → Option ℕ
max_fee_of (eip1559 tx) = tx.max_fee_per_gas
max_fee_of tx = none

abbrev pub FeesRise : TypedTransaction → TypedTransaction → Type 0
FeesRise a b =
    NotLower (gas_price_of a) (gas_price_of b)
    × NotLower (priority_fee_of a) (priority_fee_of b)
    × NotLower (max_fee_of a) (max_fee_of b)

-- Where a bump succeeds, none of the transaction's gas price, priority fee and maximal fee is
-- lowered, dropped or added.
pub bump_predicted_fees-FeesRise :
    (m : Middleware) (n percent : ℕ) (tx tx' : TypedTransaction)
    → bump_predicted_fees m n percent tx ≡ ok tx'
    → FeesRise tx tx'
unfolding bump_predicted_fees
bump_predicted_fees-FeesRise m n percent (legacy tx) tx' e = ground arith
bump_predicted_fees-FeesRise m n percent (eip2930 tx) tx' e = ground arith
bump_predicted_fees-FeesRise m n percent (eip1559 tx) tx' e = ground arith

-- A price of 20 wei or more grows by a tenth at least, as a node asks of a replacement.
pub legacy_price-replaces :
    (m : Middleware) (n price : ℕ) (tx : TransactionRequest) (tx' : TypedTransaction)
    → tx.gas_price ≡ some price
    → 20 ≤ price
    → price * 15 < u256_mod
    → bump_predicted_fees m n retry_bump_fees_percent (legacy tx) ≡ ok tx'
    → (price' : ℕ) × (gas_price_of tx' ≡ some price') × (11 * price ≤ 10 * price')
unfolding bump_predicted_fees inc_u256_percent
legacy_price-replaces m n price tx tx' e h k b =
    (price + price * 15 / 100, ground arith, omega arith)

-- After a bump an EIP-1559 transaction pays the base fee of the latest block and its priority fee.
pub eip1559-covers_base_fee :
    (m : Middleware) (n percent base_fee fee : ℕ) (tx : Eip1559TransactionRequest)
    (tx' : TypedTransaction)
    → m.get_latest_block n ≡ ok (some (record { base_fee_per_gas = some base_fee }))
    → tx.max_fee_per_gas ≡ some fee
    → bump_predicted_fees m n percent (eip1559 tx) ≡ ok tx'
    → (base_fee + unwrap_or (priority_fee_of tx') 0 ≤ unwrap_or (max_fee_of tx') 0)
      × (fee ≤ unwrap_or (max_fee_of tx') 0)
unfolding bump_predicted_fees
eip1559-covers_base_fee m n percent base_fee fee tx tx' b f e = ground arith
