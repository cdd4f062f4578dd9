-- ===== src/Client/Node.antt =====
-- client/src/lib.rs: the requests to a zkSync node, and the parameters of a finalization.
pub mod Messages
pub mod Params
pub mod Status
pub mod Places
pub mod Origin
use Prim.Native.String.{String}
use zksync_withdrawal_finali.Common.{
  ℕ, zero, suc, ◌%◌, ◌^◌, Bool, true, false, ◌&&◌, ◌||◌, Option, none, some, List, [], ◌∷◌, filter,
  ◌==◌, ltb, if◌then◌else◌, Outcome, ok, err, panic, expect,
}
use zksync_withdrawal_finali.Common.Actions.{Stateful, pure, lift, ◌>>=◌, ◌>>◌}
use zksync_withdrawal_finali.Client.{is_eth, WithdrawalParams}
use zksync_withdrawal_finali.Client.Contract.{l1_messenger_address}
use zksync_withdrawal_finali.Client.Errors.{
  ClientError, withdrawal_log_not_found, withdrawal_initiated_filter_not_found,
  l2_to_l1_with_value_not_found, l1_message_sent_not_found, message_not_rlp_bytes,
}
use zksync_withdrawal_finali.Client.Types.{
  L2ToL1LogProof, Log, RawLog, raw_log, L2ToL1Log, TransactionReceipt,
}

-- Tokens of `ethers::abi`; `other` is any other one, printed.
pub data Token : Type 0 where
  fixed_bytes bytes : List ℕ → Token
  address : ℕ → Token
  other : String → Token

-- The fields of the generated filters that are read.
pub record BridgeBurnFilter : Type 0 where
  pub amount : ℕ

pub record WithdrawalFilter : Type 0 where
  pub l_1_receiver : ℕ
  pub amount : ℕ

pub record WithdrawalInitiatedFilter : Type 0 where
  pub l_1_receiver : ℕ

pub data WithdrawalEvents : Type 0 where
  bridge_burn : BridgeBurnFilter → WithdrawalEvents
  withdrawal : WithdrawalFilter → WithdrawalEvents

-- Generated code and the functions of `ethers` that are called: signatures and selectors, the
-- decoding of logs, the encoding of tokens, the hash.
pub record Abi : Type 0 where
  pub bridge_burn_signature : ℕ
  pub withdrawal_signature : ℕ
  pub l1_message_sent_signature : ℕ
  pub finalize_withdrawal : List ℕ
  pub finalize_eth_withdrawal : List ℕ
  pub decode_withdrawal_events : RawLog → Outcome ClientError WithdrawalEvents
  pub decode_withdrawal_initiated : RawLog → Option WithdrawalInitiatedFilter
  pub decode_address : List ℕ → Outcome ClientError ℕ
  pub decode_bytes : List ℕ → Option (List Token)
  pub encode_u256 : ℕ → List ℕ
  pub encode_packed : List Token → Outcome ClientError (List ℕ)
  pub keccak256 : List ℕ → ℕ

-- The answers of the node and of the contracts on L1, by the number of the call.
pub record Env : Type 0 where
  pub eth_get_transaction_receipt : ℕ → ℕ → Outcome ClientError TransactionReceipt
  pub zks_get_l2_to_l1_log_proof : ℕ → ℕ → Option ℕ → Outcome ClientError (Option L2ToL1LogProof)
  pub l1_address : ℕ → ℕ → Outcome ClientError (List ℕ)
  pub is_eth_withdrawal_finalized : ℕ → ℕ → ℕ → Outcome ClientError Bool
  pub is_withdrawal_finalized : ℕ → ℕ → ℕ → Outcome ClientError Bool

-- TOKEN_ADDRS: by L2 address the L1 address; the entry inserted last stands first.
pub record State : Type 0 where
  pub token_addrs : List (ℕ × ℕ)
  pub calls : ℕ

abbrev pub M : Type 0 → Type 0
M A = Stateful State ClientError A

unfoldable pub call : {A : Type 0} → (ℕ → Outcome ClientError A) → M A
call answer s = (answer s.calls, record s { calls = suc s.calls })

abbrev pub get : ℕ → List (ℕ × ℕ) → Option ℕ
get key [] = none
get key (entry ∷ entries) = if entry.0 == key then some entry.1 else get key entries

unfoldable pub cached : ℕ → M (Option ℕ)
cached l2_address s = (ok (get l2_address s.token_addrs), s)

unfoldable pub insert : ℕ → ℕ → M (Unit {0})
insert l2_address l1_address s =
    (ok tt, record s { token_addrs = (l2_address, l1_address) ∷ s.token_addrs })

unfoldable pub add_predefined_token_addrs : List (ℕ × ℕ) → M (Unit {0})
add_predefined_token_addrs [] = pure tt
add_predefined_token_addrs ((addr_l1, addr_l2) ∷ addrs) = do
  insert addr_l2 addr_l1
  add_predefined_token_addrs addrs

abbrev pub ok_or : {A : Type 0} → ClientError → Option A → Outcome ClientError A
ok_or e (some a) = ok a
ok_or e none = err e

-- `nth` of an iterator.
abbrev pub nth {ℓ} : {A : Type ℓ} → ℕ → List A → Option A
nth n [] = none
nth zero (a ∷ as') = some a
nth (suc n) (a ∷ as') = nth n as'

-- `filter(..).nth(index)`: it asks no entry after the one it finds. The test panics on `none`.
unfoldable pub nth_where : {E A : Type 0} → (A → Option Bool) → ℕ → List A → Outcome E (Option A)
nth_where test index [] = ok none
nth_where test index (a ∷ as') = elim (test a) [
  | none ↦ panic
  | some false ↦ nth_where test index as'
  | some true ↦ (elim index [ zero ↦ ok (some a) | suc i ↦ nth_where test i as' ])
]

abbrev pub keep_some {ℓ κ} : {A : Type ℓ} {B : Type κ} → (A → Option B) → List A → List B
keep_some f [] = []
keep_some f (a ∷ as') = elim (f a) [ none ↦ keep_some f as' | some b ↦ b ∷ keep_some f as' ]

unfoldable pub position : (L2ToL1Log → Bool) → List L2ToL1Log → Option ℕ
position test [] = none
position test (l ∷ ls) =
    if test l then some 0 else elim (position test ls) [ none ↦ none | some n ↦ some (suc n) ]

module _ (env : Env) where
  unfoldable pub zks_get_transaction_receipt : ℕ → M TransactionReceipt
  zks_get_transaction_receipt tx_hash = call (λ n. env.eth_get_transaction_receipt n tx_hash)

  unfoldable pub get_log_proof : ℕ → Option ℕ → M (Option L2ToL1LogProof)
  get_log_proof tx_hash l2_to_l1_index =
      call (λ n. env.zks_get_l2_to_l1_log_proof n tx_hash l2_to_l1_index)
