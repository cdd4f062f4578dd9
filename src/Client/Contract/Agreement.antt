-- ===== src/Client/Contract/Agreement.antt =====
-- client/src/lib.rs and client/src/zksync_contract.rs: the messages that one rebuilds, and the other
-- reads.
use mathlib.Core.List.{append_assoc}
use zksync_withdrawal_finali.Common.{
  arith, ℕ, ◌^◌, ◌≤◌, ◌<◌, ◌≡◌, refl, ◌∙◌, sym, subst, false, Option, some, none, List, [], ◌∷◌,
  ◌++◌, length, length-append, le→leb, ==_iff, ◌==◌, Bool-cases, inl, inr, Outcome, ok,
}
use zksync_withdrawal_finali.Client.{eth_token_address}
use zksync_withdrawal_finali.Client.Contract.{
  L2Log, slice, message_sender, event, eth_event, erc20_event, message_events, AbiError,
  L2ToL1Event,
}
use zksync_withdrawal_finali.Client.Contract.Framing.{
  to_be_bytes, length-to_be_bytes, from_be_bytes-to_be_bytes, slice-middle,
}
use zksync_withdrawal_finali.Client.Contract.Calls.{equal_bytes_refl, erc20_event-encoded}
use zksync_withdrawal_finali.Client.Node
use zksync_withdrawal_finali.Client.Node.{
  Token, fixed_bytes, bytes, address, other, WithdrawalFilter,
}
use zksync_withdrawal_finali.Client.Node.Messages.{bridge_burn_message, withdraw_message}

-- `encode_packed` and `encode` of `ethers`, of the types that are used: bytes as they are, an address
-- in 20 bytes, a number in 32, one after the other.
abbrev pub packed : List Token → Option (List ℕ)
packed [] = some []
packed (fixed_bytes b ∷ tokens) = elim (packed tokens) [ none ↦ none | some bs ↦ some (b ++ bs) ]
packed (bytes b ∷ tokens) = elim (packed tokens) [ none ↦ none | some bs ↦ some (b ++ bs) ]
packed (address a ∷ tokens) = elim (packed tokens) [
  | none ↦ none
  | some bs ↦ some (to_be_bytes 20 a ++ bs)
]
packed (other printed ∷ tokens) = none

pub record IsPacking (abi : Node.Abi) : Type 0 where
  pub packs :
      (tokens : List Token) (message : List ℕ)
      → packed tokens ≡ some message
      → abi.encode_packed tokens ≡ ok message
  pub encodes : (n : ℕ) → abi.encode_u256 n ≡ to_be_bytes 32 n

module _ (eth erc20 : List ℕ) (bridge l1_block_number batch_number : ℕ) where
  -- The parser reads back recipient and amount from the message of a withdrawal of ETH.
  eth_event-encoded :
      (log : L2Log) (to amount : ℕ) (rest : List ℕ)
      → message_sender log ≡ eth_token_address
      → length eth ≡ 4
      → to < 256 ^ 20
      → amount < 256 ^ 32
      → eth_event eth erc20 bridge l1_block_number batch_number log
          (eth ++ (to_be_bytes 20 to ++ (to_be_bytes 32 amount ++ rest)))
        ≡ ok (event l1_block_number batch_number log eth_token_address to amount ∷ [])
  unfolding eth_event
  eth_event-encoded log to amount rest s l t a =
      rw
        (
          (==_iff (message_sender log) eth_token_address).1 s,
          slice-middle 0 4 [] eth (recipient ++ (value ++ rest)) refl (omega (arith, l)),
          equal_bytes_refl eth,
          at_to,
          at_amount,
          le→leb 56 (length message) long,
          from_be_bytes-to_be_bytes 20 to t,
          from_be_bytes-to_be_bytes 32 amount a,
        )
        refl
    where
      recipient : List ℕ
      recipient = to_be_bytes 20 to

      value : List ℕ
      value = to_be_bytes 32 amount

      message : List ℕ
      message = eth ++ (recipient ++ (value ++ rest))

      long : 56 ≤ length message
      long = omega (
        arith,
        l,
        length-append eth (recipient ++ (value ++ rest)),
        length-append recipient (value ++ rest),
        length-append value rest,
        length-to_be_bytes 20 to,
        length-to_be_bytes 32 amount,
      )

      at_to : slice 4 24 message ≡ ok recipient
      at_to =
          slice-middle 4 24 eth recipient (value ++ rest) l
            (omega (arith, length-to_be_bytes 20 to))

      at_amount : slice 24 56 message ≡ ok value
      at_amount =
          subst (λ m. slice 24 56 m ≡ ok value) (append_assoc eth recipient (value ++ rest))
            (slice-middle 24 56 (eth ++ recipient) value rest
              (omega (arith, length-append eth recipient, l, length-to_be_bytes 20 to))
              (omega (arith, length-to_be_bytes 32 amount)))

  not-same : (a b : ℕ) → ¬ (a ≡ b) → a == b ≡ false
  not-same a b h = elim (Bool-cases (a == b)) [ inl t ↦ absurd (h ((==_iff a b).0 t)) | inr f ↦ f ]

  eth_event-other :
      (log : L2Log) (message : List ℕ)
      → ¬ (message_sender log ≡ eth_token_address)
      → eth_event eth erc20 bridge l1_block_number batch_number log message ≡ ok []
  unfolding eth_event
  eth_event-other log message h = rw (not-same _ _ h) refl

  erc20_event-other :
      (log : L2Log) (message : List ℕ)
      → ¬ (message_sender log ≡ bridge)
      → erc20_event eth erc20 bridge l1_block_number batch_number log message ≡ ok []
  unfolding erc20_event
  erc20_event-other log message h = rw (not-same _ _ h) refl

module _ (abi : Node.Abi) (bridge l1_block_number batch_number : ℕ) (p : IsPacking abi)
    (apart : ¬ (bridge ≡ eth_token_address)) (log : L2Log) where
  abbrev events_of : List ℕ → Outcome AbiError (List L2ToL1Event)
  events_of message =
      message_events abi.finalize_eth_withdrawal abi.finalize_withdrawal bridge l1_block_number
        batch_number log message

  bridge_burn-read :
      (to token amount : ℕ)
      → length abi.finalize_withdrawal ≡ 4
      → to < 256 ^ 20
      → token < 256 ^ 20
      → amount < 256 ^ 32
      → message_sender log ≡ bridge
      → events_of (
          abi.finalize_withdrawal
          ++ (to_be_bytes 20 to ++ (to_be_bytes 20 token ++ (abi.encode_u256 amount ++ []))))
        ≡ ok (event l1_block_number batch_number log token to amount ∷ [])
  unfolding message_events
  bridge_burn-read to token amount four t k a s =
      rw
        (
          p.encodes amount,
          eth_event-other abi.finalize_eth_withdrawal abi.finalize_withdrawal bridge l1_block_number
              batch_number log _ (λ e. apart (sym s ∙ e)),
          erc20_event-encoded abi.finalize_eth_withdrawal abi.finalize_withdrawal bridge
              l1_block_number batch_number log to token amount [] s four t k a,
        )
        refl

  withdraw-read :
      (to amount : ℕ)
      → length abi.finalize_eth_withdrawal ≡ 4
      → to < 256 ^ 20
      → amount < 256 ^ 32
      → message_sender log ≡ eth_token_address
      → events_of
          (abi.finalize_eth_withdrawal ++ (to_be_bytes 20 to ++ (abi.encode_u256 amount ++ [])))
        ≡ ok (event l1_block_number batch_number log eth_token_address to amount ∷ [])
  unfolding message_events
  withdraw-read to amount four t a s =
      rw
        (
          p.encodes amount,
          eth_event-encoded abi.finalize_eth_withdrawal abi.finalize_withdrawal bridge
              l1_block_number batch_number log to amount [] s four t a,
          erc20_event-other abi.finalize_eth_withdrawal abi.finalize_withdrawal bridge
              l1_block_number batch_number log _ (λ e. apart (sym e ∙ s)),
        )
        refl

-- If `ethers` packs bytes as they are, addresses in 20 bytes and numbers in 32, the selectors have
-- four bytes, and the bridge is not the ETH token: the message that `bridge_burn_message` rebuilds
-- for an ERC20 withdrawal, and the one of `withdraw_message` for one of ETH, is read by the parser,
-- in a log of its sender, as the one event with its token, recipient and amount, if these fit their
-- fields.
pub message_events-messages :
    (abi : Node.Abi) (bridge l1_block_number batch_number : ℕ)
    → IsPacking abi
    → length abi.finalize_withdrawal ≡ 4
    → length abi.finalize_eth_withdrawal ≡ 4
    → ¬ (bridge ≡ eth_token_address)
    → (log eth_log : L2Log) (to token amount : ℕ) → message_sender log ≡ bridge
    → message_sender eth_log ≡ eth_token_address
    → to < 256 ^ 20
    → token < 256 ^ 20
    → amount < 256 ^ 32
    → ((message : List ℕ) × (bridge_burn_message abi amount to token ≡ ok message)
        × (message_events abi.finalize_eth_withdrawal abi.finalize_withdrawal bridge l1_block_number
              batch_number log message
            ≡ ok (event l1_block_number batch_number log token to amount ∷ [])))
      × ((message : List ℕ) × (withdraw_message abi (record { l_1_receiver = to; amount = amount })
            ≡ ok message)
          × (message_events abi.finalize_eth_withdrawal abi.finalize_withdrawal bridge
                l1_block_number batch_number eth_log message
              ≡ ok (event l1_block_number batch_number eth_log eth_token_address to amount ∷ [])))
unfolding bridge_burn_message withdraw_message
message_events-messages abi bridge l1 batch p four eth_four apart log eth_log to token amount s e t
      k a =
    (
      (
        _,
        p.packs _ _ refl,
        bridge_burn-read abi bridge l1 batch p apart log to token amount four t k a s,
      ),
      (
        _,
        p.packs _ _ refl,
        withdraw-read abi bridge l1 batch p apart eth_log to amount eth_four t a e,
      ),
    )
