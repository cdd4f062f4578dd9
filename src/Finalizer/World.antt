-- ===== src/Finalizer/World.antt =====
-- finalizer/src/lib.rs: the finalizer's configuration, what it meets outside (the provider, the
-- contracts, the database server and the other tasks), and the state of its loop.
use Prim.Native.String.{String}
use zksync_withdrawal_finali.Common.{ℕ, Bool, Option, List, Outcome}
use zksync_withdrawal_finali.Client.{
  WithdrawalKey, WithdrawalParams, RequestFinalizeWithdrawal, FinalizeResult,
}
use zksync_withdrawal_finali.Client.Errors.{ClientError}
use zksync_withdrawal_finali.TxSender.{Middleware, MiddlewareError, TypedTransaction, Receipt}
use zksync_withdrawal_finali.Storage.Tables.{Db, WithdrawalRow, StorageError}
use zksync_withdrawal_finali.Storage.Withdrawals.{Scan}
use zksync_withdrawal_finali.Storage.Selection.{Joined}

pub data TokenList : Type 0 where
  all : TokenList
  nothing : TokenList
  black_list : List ℕ → TokenList
  white_list : List ℕ → TokenList

-- finalizer/src/error.rs; `connection_lost` is an error of sqlx that no constraint causes.
pub data Error : Type 0 where
  storage : StorageError → Error
  connection_lost : Error
  contract : String → Error
  client : ClientError → Error
  middleware : MiddlewareError → Error
  withdrawal_transaction_reverted : Error

-- The fields of `Finalizer` that no operation changes. `meters` says whether it has a meter.
pub record Config : Type 0 where
  pub one_withdrawal_gas_limit : ℕ
  pub batch_finalization_gas_limit : ℕ
  pub tx_fee_limit : ℕ
  pub token_list : TokenList
  pub eth_threshold : Option ℕ
  pub meters : Bool

-- QUERY_DB_PAGINATION_LIMIT, and the waits in seconds.
abbrev pub query_db_pagination_limit : ℕ
query_db_pagination_limit = 50

abbrev pub no_new_withdrawals_backoff : ℕ
no_new_withdrawals_backoff = 5

abbrev pub loop_iteration_error_backoff : ℕ
loop_iteration_error_backoff = 5

abbrev pub out_of_funds_backoff : ℕ
out_of_funds_backoff = 10

-- The answers from outside, by the number of the call: any two calls may be answered differently.
-- `others` is what the other tasks did to the tables before the statement.
pub record Env : Type 0 where
  pub scan : Scan Joined
  pub scan_withdrawals : Scan WithdrawalRow
  pub now : ℕ → ℕ
  pub others : ℕ → Db → Db
  pub connection_fails : ℕ → Bool
  pub get_gas_price : ℕ → Outcome Error ℕ
  pub get_transaction_count : ℕ → Outcome Error ℕ
  pub call_finalize_withdrawals :
      ℕ → List RequestFinalizeWithdrawal → Outcome Error (List FinalizeResult)
  pub finalize_withdrawals : List RequestFinalizeWithdrawal → TypedTransaction
  pub provider : ℕ → Middleware
  pub finalize_withdrawal_params : ℕ → ℕ → ℕ → Outcome ClientError (Option WithdrawalParams)
  pub is_eth_withdrawal_finalized : ℕ → ℕ → ℕ → Outcome Error Bool
  pub is_withdrawal_finalized : ℕ → ℕ → ℕ → Outcome Error Bool

-- What the loop does outside its own memory, for the statements about it.
pub data Action : Type 0 where
  predicted : List WithdrawalParams → List FinalizeResult → Action
  submitted : List WithdrawalParams → Receipt → Action
  checked : List WithdrawalKey → Action
  recorded_finalized : List WithdrawalKey → ℕ → Action
  recorded_failed : List WithdrawalKey → Action
  metered : List ℕ → Action
  slept : ℕ → Action
  fetched : List WithdrawalParams → Action

-- `trace` has the last action first.
pub record State : Type 0 where
  pub unsuccessful : List WithdrawalParams
  pub db : Db
  pub calls : ℕ
  pub trace : List Action
