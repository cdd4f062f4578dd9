-- ===== src/Client/Node/Messages.antt =====
-- client/src/lib.rs: the message that a withdrawal sends to L1, and which logs belong to it.
use zksync_withdrawal_finali.Common.{
  ℕ, ◌%◌, ◌^◌, Bool, false, ◌||◌, Option, none, some, List, [], ◌∷◌, ◌==◌, ltb, if◌then◌else◌,
  Outcome, ok, err, panic,
}
use zksync_withdrawal_finali.Client.Contract.{l1_messenger_address}
use zksync_withdrawal_finali.Client.Errors.{ClientError, message_not_rlp_bytes}
use zksync_withdrawal_finali.Client.Types.{Log}
use zksync_withdrawal_finali.Client.Node.{
  Token, WithdrawalFilter, Abi, nth, fixed_bytes, bytes, address, other,
}

-- The messages that the bridge and the ETH token send to L1.
unfoldable pub bridge_burn_message : Abi → ℕ → ℕ → ℕ → Outcome ClientError (List ℕ)
bridge_burn_message abi amount l1_receiver l1_token = abi.encode_packed (
    fixed_bytes abi.finalize_withdrawal
    ∷ address l1_receiver
    ∷ address l1_token
    ∷ bytes (abi.encode_u256 amount)
    ∷ [])

unfoldable pub withdraw_message : Abi → WithdrawalFilter → Outcome ClientError (List ℕ)
withdraw_message abi withdraw = abi.encode_packed (
    fixed_bytes abi.finalize_eth_withdrawal
    ∷ address withdraw.l_1_receiver
    ∷ bytes (abi.encode_u256 withdraw.amount)
    ∷ [])

abbrev pub hashed : Abi → Outcome ClientError (List ℕ) → Outcome ClientError ℕ
hashed abi (ok message) = ok (abi.keccak256 message)
hashed abi (err e) = err e
hashed abi panic = panic

abbrev pub get_l1_bridge_burn_message_keccak : Abi → ℕ → ℕ → ℕ → Outcome ClientError ℕ
get_l1_bridge_burn_message_keccak abi amount l1_receiver l1_token =
    hashed abi (bridge_burn_message abi amount l1_receiver l1_token)

abbrev pub get_l1_withdraw_message_keccak : Abi → WithdrawalFilter → Outcome ClientError ℕ
get_l1_withdraw_message_keccak abi withdraw = hashed abi (withdraw_message abi withdraw)

-- `log.topics[0]` panics on a log without topics.
abbrev pub first_topic_is : (ℕ → Bool) → Log → Option Bool
first_topic_is test log = elim log.topics [ [] ↦ none | topic ∷ topics ↦ some (test topic) ]

abbrev pub is_withdrawal_log : Abi → Log → Option Bool
is_withdrawal_log abi =
    first_topic_is
      (λ topic. topic == abi.bridge_burn_signature || topic == abi.withdrawal_signature)

abbrev pub is_message_log : Abi → Log → Option Bool
is_message_log abi log =
    if log.address == l1_messenger_address
    then first_topic_is (λ topic. topic == abi.l1_message_sent_signature) log
    else some false

-- `log.topics[1].into()`: the last 20 bytes.
abbrev pub second_topic : Log → Option ℕ
second_topic log = elim (nth 1 log.topics) [ none ↦ none | some topic ↦ some (topic % 2 ^ 160) ]

-- `swap_remove(0)` of the decoded tokens.
abbrev pub as_message : Option (List Token) → Outcome ClientError (List ℕ)
as_message none = panic
as_message (some []) = panic
as_message (some (bytes b ∷ tokens)) = ok b
as_message (some (fixed_bytes b ∷ tokens)) = err (message_not_rlp_bytes "FixedBytes")
as_message (some (address a ∷ tokens)) = err (message_not_rlp_bytes "Address")
as_message (some (other printed ∷ tokens)) = err (message_not_rlp_bytes printed)

-- `as_u32() as u16`: the first panics on a larger number.
abbrev pub as_u16 : ℕ → Outcome ClientError ℕ
as_u16 n = if ltb n (2 ^ 32) then ok (n % 2 ^ 16) else panic

abbrev pub with_tx_index : {A : Type 0} → Option ℕ → Option A → Option (A × Option ℕ)
with_tx_index index none = none
with_tx_index index (some a) = some (a, index)
