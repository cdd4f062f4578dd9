-- ===== src/ChainEvents/World.antt =====
-- chain-events/src/lib.rs and error.rs: what both listeners share.
use Prim.Native.String.{String}
use text.Mathlib.Text.{starts_with}
use zksync_withdrawal_finali.Common.{ℕ, Bool, false, Option, none, some, List}
use zksync_withdrawal_finali.Client.Types.{RawLog}

pub data Error : Type 0 where
  middleware log_query : String → Error
  channel_closing no_transaction : Error

-- `Log` of `ethers`.
pub record EthLog : Type 0 where
  pub address : ℕ
  pub topics : List ℕ
  pub data_bytes : List ℕ
  pub block_number : Option ℕ
  pub transaction_hash : Option ℕ

abbrev pub raw_log : EthLog → RawLog
raw_log log = record { topics = log.topics; data_bytes = log.data_bytes }

-- The error of a stream of logs. `json_rpc_client_error` has the message of the error response, if
-- there is one.
pub data LogQueryError : Type 0 where
  json_rpc_client_error : Option String → LogQueryError
  other_error : LogQueryError

unfoldable pub rpc_query_too_large : LogQueryError → Bool
rpc_query_too_large (json_rpc_client_error (some message)) =
    starts_with message "Query returned more than 10000 results. Try with this block range"
rpc_query_too_large (json_rpc_client_error none) = false
rpc_query_too_large other_error = false
