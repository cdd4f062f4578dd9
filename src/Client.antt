-- ===== src/Client.antt =====
-- client/src/lib.rs: the types of a withdrawal, its key, and the request that finalizes it.
-- Addresses, hashes and U256 are numbers; `Bytes` is a list of bytes.
pub mod Errors
pub mod Types
pub mod Node
pub mod Contract
use zksync_withdrawal_finali.Common.{ℕ, Bool, ◌||◌, List, ◌==◌}

-- ETH_TOKEN_ADDRESS is 0x…800a, ETH_ADDRESS the zero address.
abbrev pub eth_token_address : ℕ
eth_token_address = 0x800a

abbrev pub eth_address : ℕ
eth_address = 0

unfoldable pub is_eth : ℕ → Bool
is_eth address = address == eth_token_address || address == eth_address

pub record WithdrawalKey : Type 0 where
  pub tx_hash : ℕ
  pub event_index_in_tx : ℕ

pub record WithdrawalParams : Type 0 where
  pub tx_hash : ℕ
  pub event_index_in_tx : ℕ
  pub id : ℕ
  pub l2_block_number : ℕ
  pub l1_batch_number : ℕ
  pub l2_message_index : ℕ
  pub l2_tx_number_in_block : ℕ
  pub message : List ℕ
  pub sender : ℕ
  pub proof : List ℕ

unfoldable pub key : WithdrawalParams → WithdrawalKey
key w = record { tx_hash = w.tx_hash; event_index_in_tx = w.event_index_in_tx }

pub record RequestFinalizeWithdrawal : Type 0 where
  pub l_2_block_number : ℕ
  pub l_2_message_index : ℕ
  pub l_2_tx_number_in_block : ℕ
  pub message : List ℕ
  pub merkle_proof : List ℕ
  pub is_eth : Bool
  pub gas : ℕ

unfoldable pub into_request_with_gaslimit : WithdrawalParams → ℕ → RequestFinalizeWithdrawal
into_request_with_gaslimit w withdrawal_gas_limit = record {
  l_2_block_number = w.l1_batch_number;
  l_2_message_index = w.l2_message_index;
  l_2_tx_number_in_block = w.l2_tx_number_in_block;
  message = w.message;
  merkle_proof = w.proof;
  is_eth = is_eth w.sender;
  gas = withdrawal_gas_limit;
}

-- `Result` of the WithdrawalFinalizer contract: the outcome of one request.
pub record FinalizeResult : Type 0 where
  pub l_2_block_number : ℕ
  pub l_2_message_index : ℕ
  pub gas : ℕ
  pub success : Bool

-- zksync_types.rs: a withdrawal seen on L2.
pub record WithdrawalEvent : Type 0 where
  pub tx_hash : ℕ
  pub block_number : ℕ
  pub token : ℕ
  pub amount : ℕ
