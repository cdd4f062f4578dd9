-- ===== src/TxSender.antt =====
-- tx-sender/src/lib.rs: sends a transaction, and sends it again with higher fees while it is not
-- mined in time. The provider is a parameter; its n-th answers are functions of the retry number.
pub mod Fees
pub mod Retries
pub mod Answers
use Prim.Native.String.{String}
use zksync_withdrawal_finali.Common.{
  unwrap_or, ℕ, zero, suc, ◌/◌, ◌-◌, max, Option, none, some, List, [], ◌∷◌, Outcome, ok, err,
  panic, ◌>>=◌, expect, add_u256, saturating_mul, u64_mod, ltb, if◌then◌else◌,
}
use zksync_withdrawal_finali.Common.Int.{ℤ}
use mathlib.Core.Option

abbrev pub retry_bump_fees_percent : ℕ
retry_bump_fees_percent = 15

-- The fields of ethers' requests that the sender touches; `payload` stands for the others.
pub record TransactionRequest : Type 0 where
  pub nonce : Option ℕ
  pub gas : Option ℕ
  pub gas_price : Option ℕ
  pub payload : List ℕ

pub record Eip1559TransactionRequest : Type 0 where
  pub nonce : Option ℕ
  pub gas : Option ℕ
  pub max_priority_fee_per_gas : Option ℕ
  pub max_fee_per_gas : Option ℕ
  pub payload : List ℕ

pub data TypedTransaction : Type 0 where
  legacy : TransactionRequest → TypedTransaction
  eip2930 : TransactionRequest → TypedTransaction
  eip1559 : Eip1559TransactionRequest → TypedTransaction

abbrev pub set_nonce : ℕ → TypedTransaction → TypedTransaction
set_nonce n (legacy tx) = legacy (record tx { nonce = some n })
set_nonce n (eip2930 tx) = eip2930 (record tx { nonce = some n })
set_nonce n (eip1559 tx) = eip1559 (record tx { nonce = some n })

abbrev pub set_gas : ℕ → TypedTransaction → TypedTransaction
set_gas g (legacy tx) = legacy (record tx { gas = some g })
set_gas g (eip2930 tx) = eip2930 (record tx { gas = some g })
set_gas g (eip1559 tx) = eip1559 (record tx { gas = some g })

pub record ErrorResponse : Type 0 where
  pub code : ℤ
  pub message : String

-- What the program reads of a middleware's error: `as_provider_error` and `as_error_response`.
pub record MiddlewareError : Type 0 where
  pub as_provider_error : Option String
  pub as_error_response : Option ErrorResponse

pub record TransactionReceipt : Type 0 where
  pub transaction_hash : ℕ
  pub status : Option ℕ

pub record Block : Type 0 where
  pub base_fee_per_gas : Option ℕ

-- What waiting for a sent transaction comes to.
pub data Pending : Type 0 where
  timed_out : Pending
  resolved : Option TransactionReceipt → Pending
  failed : String → Pending

pub record Middleware : Type 0 where
  pub from_provider_err : String → MiddlewareError
  pub fill_transaction : TypedTransaction → Outcome MiddlewareError TypedTransaction
  pub get_latest_block : ℕ → Outcome MiddlewareError (Option Block)
  pub send_transaction : ℕ → TypedTransaction → Outcome MiddlewareError Pending

unfoldable pub inc_u256_percent : ℕ → ℕ → ℕ
inc_u256_percent num percent = saturating_mul num percent / 100

abbrev ok_or : {A : Type 0} → MiddlewareError → Option A → Outcome MiddlewareError A
ok_or e (some a) = ok a
ok_or e none = err e

-- The arm of the requests that have one gas price.
bump_gas_price : ℕ → TransactionRequest → Outcome MiddlewareError TransactionRequest
unfolding inc_u256_percent
bump_gas_price percent tx = elim tx.gas_price [
  | none ↦ ok tx
  | some price ↦ expect (add_u256 price (inc_u256_percent price percent)) >>= λ price'.
      ok (record tx { gas_price = some price' })
]

abbrev bump_of : ℕ → Option ℕ → ℕ
bump_of percent none = 0
bump_of percent (some fee) = inc_u256_percent fee percent

abbrev add_bump : ℕ → Option ℕ → Outcome MiddlewareError (Option ℕ)
add_bump bump none = ok none
add_bump bump (some fee) = expect (add_u256 fee bump) >>= λ fee'. ok (some fee')

abbrev max_fee : ℕ → ℕ → Option ℕ → Option ℕ → Outcome MiddlewareError (Option ℕ)
max_fee base_fee bump priority none = ok none
max_fee base_fee bump priority (some fee) = expect (add_u256 fee bump) >>= λ bumped.
    expect (add_u256 base_fee (unwrap_or priority 0)) >>= λ floor. ok (some (max bumped floor))

bump_eip1559 : ℕ → ℕ → Eip1559TransactionRequest → Outcome MiddlewareError Eip1559TransactionRequest
unfolding inc_u256_percent
bump_eip1559 percent base_fee tx =
    let bump = bump_of percent tx.max_priority_fee_per_gas in
    add_bump bump tx.max_priority_fee_per_gas >>= λ priority.
    max_fee base_fee bump priority tx.max_fee_per_gas >>= λ fee.
    ok (record tx { max_priority_fee_per_gas = priority; max_fee_per_gas = fee })

-- `n` is the number of the retry, by which the provider answers.
unfoldable pub bump_predicted_fees :
    Middleware → ℕ → ℕ → TypedTransaction → Outcome MiddlewareError TypedTransaction
unfolding bump_gas_price bump_eip1559
bump_predicted_fees m n percent (legacy tx) = bump_gas_price percent tx >>= λ tx'. ok (legacy tx')
bump_predicted_fees m n percent (eip2930 tx) = bump_gas_price percent tx >>= λ tx'. ok (eip2930 tx')
bump_predicted_fees m n percent (eip1559 tx) = do
  found ← m.get_latest_block n
  block ← ok_or (m.from_provider_err "Latest block not found") found
  base_fee ← ok_or (m.from_provider_err "EIP-1559 not activated") block.base_fee_per_gas
  tx' ← bump_eip1559 percent base_fee tx
  ok (eip1559 tx')

abbrev pub Receipt : Type 0
Receipt = Outcome MiddlewareError (Option TransactionReceipt)

-- The transaction of one attempt: a retry bumps the fees and sets the nonce again.
unfoldable pub prepare :
    Middleware → ℕ → ℕ → TypedTransaction → Outcome MiddlewareError TypedTransaction
prepare m nonce retry_num tx =
    if ltb 0 retry_num
    then (bump_predicted_fees m retry_num retry_bump_fees_percent tx >>= λ bumped.
        ok (set_nonce nonce bumped))
    else ok tx

-- After `send_transaction`: wait for the transaction, and on a timeout go on by `retry`.
settle :
    Middleware
    → (TypedTransaction → Receipt × List TypedTransaction)
    → TypedTransaction
    → Outcome MiddlewareError Pending
    → Receipt × List TypedTransaction
settle m retry submit_tx (err e) = (err e, [])
settle m retry submit_tx panic = (panic, [])
settle m retry submit_tx (ok (resolved receipt)) = (ok receipt, submit_tx ∷ [])
settle m retry submit_tx (ok (failed e)) = (err (m.from_provider_err e), submit_tx ∷ [])
settle m retry submit_tx (ok timed_out) = let rest = retry submit_tx in (rest.0, submit_tx ∷ rest.1)

attempt :
    Middleware
    → ℕ
    → (TypedTransaction → Receipt × List TypedTransaction)
    → Outcome MiddlewareError TypedTransaction
    → Receipt × List TypedTransaction
unfolding settle
attempt m retry_num retry (err e) = (err e, [])
attempt m retry_num retry panic = (panic, [])
attempt m retry_num retry (ok submit_tx) =
    settle m retry submit_tx (m.send_transaction retry_num submit_tx)

-- The loop over `retry_num`, `left` rounds from its end, with the transactions that were sent.
unfoldable pub send_loop :
    Middleware → ℕ → ℕ → ℕ → TypedTransaction → Receipt × List TypedTransaction
unfolding attempt
send_loop m nonce zero retry_num tx = (panic, [])
send_loop m nonce (suc left) retry_num tx =
    attempt m retry_num (send_loop m nonce left (suc retry_num)) (prepare m nonce retry_num tx)

-- `0..usize::MAX` has this many rounds.
abbrev pub max_attempts : ℕ
max_attempts = u64_mod - 1

unfoldable pub send_tx_adjust_gas :
    Middleware → TypedTransaction → ℕ → ℕ → Receipt × List TypedTransaction
send_tx_adjust_gas m tx nonce gas_limit = elim (m.fill_transaction tx) [
  | err e ↦ (err e, [])
  | panic ↦ (panic, [])
  | ok filled ↦ send_loop m nonce max_attempts 0 (set_gas gas_limit (set_nonce nonce filled))
]
