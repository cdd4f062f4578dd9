-- ===== src/Client/Errors.antt =====
-- client/src/error.rs: the errors of the requests to a zkSync node.
use Prim.Native.String.{String}
use zksync_withdrawal_finali.Common.{ℕ}

-- An error of a package is its text.
pub data ClientError : Type 0 where
  abi_error : String → ClientError
  contract_abi_error : String → ClientError
  provider_error : String → ClientError
  encode_packed_error : String → ClientError
  contract_error : String → ClientError
  client_middleware : String → ClientError
  channel_closed : ClientError
  withdrawal_log_not_found : ℕ → ℕ → ClientError
  failed_to_decode_log : ClientError
  withdrawal_initiated_filter_not_found : ℕ → ℕ → ClientError
  l2_to_l1_with_value_not_found : ℕ → ℕ → ClientError
  l1_message_sent_not_found : ℕ → ℕ → ClientError
  message_not_rlp_bytes : String → ClientError
  l2_token_unknown : ℕ → ClientError
