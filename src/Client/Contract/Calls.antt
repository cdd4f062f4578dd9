-- ===== src/Client/Contract/Calls.antt =====
-- client/src/zksync_contract.rs: what the parser makes of one message.
use mathlib.Core.List.{append_assoc}
use zksync_withdrawal_finali.Common.{
  arith, ℕ, ◌^◌, ◌≤◌, ◌<◌, ◌≡◌, refl, ◌∙◌, subst, true, false, List, [], ◌∷◌, ◌++◌, length,
  length-append, take, ltb, leb, le→leb, ltb→lt, ==_iff, if◌then◌else◌, Bool-cases, inl, inr, ok,
  panic,
}
use zksync_withdrawal_finali.Client.Contract.{
  L2Log, slice, part, from_be_bytes, equal_bytes, message_sender, event, erc20_event,
}
use zksync_withdrawal_finali.Client.Contract.Framing.{
  to_be_bytes, length-to_be_bytes, from_be_bytes-to_be_bytes, slice-middle,
}

slice-long :
    (from to : ℕ) (bytes : List ℕ)
    → from ≤ to
    → to ≤ length bytes
    → slice from to bytes ≡ ok (part from to bytes)
slice-long from to bytes h k = rw (le→leb from to h, le→leb to (length bytes) k) refl

not-le : (n m : ℕ) → m < n → leb n m ≡ false
not-le n m h = ground arith

slice-short : (from to : ℕ) (bytes : List ℕ) → length bytes < to → slice from to bytes ≡ panic
slice-short from to bytes h = elim (Bool-cases (leb from to)) [
  | inl e ↦ rw (e, not-le to (length bytes) h) refl
  | inr e ↦ rw e refl
]

pub equal_bytes_refl : (bytes : List ℕ) → equal_bytes bytes bytes ≡ true
equal_bytes_refl [] = refl
equal_bytes_refl (b ∷ bs) = rw ((==_iff b b).1 refl) (equal_bytes_refl bs)

module _ (eth erc20 : List ℕ) (bridge l1_block_number batch_number : ℕ) where
  -- A message to the ERC20 bridge that begins with the selector of `finalizeWithdrawal` gives no
  -- event if it has fewer than 68 bytes, a panic if it has 68 to 75, and an event of its fields
  -- otherwise.
  pub erc20_event-by_length :
      (log : L2Log) (message : List ℕ)
      → message_sender log ≡ bridge
      → 4 ≤ length message
      → equal_bytes erc20 (take 4 message) ≡ true
      → erc20_event eth erc20 bridge l1_block_number batch_number log message ≡ (
          if ltb (length message) 68
          then ok []
          else if ltb (length message) 76
          then panic
          else ok (
              event l1_block_number batch_number log
                (from_be_bytes (part 24 44 message))
                (from_be_bytes (part 4 24 message))
                (from_be_bytes (part 44 76 message))
              ∷ []))
  unfolding erc20_event
  erc20_event-by_length log message s l c =
      rw ((==_iff (message_sender log) bridge).1 s, le→leb 4 (length message) l, c)
        (elim (Bool-cases (ltb (length message) 68)) [
          | inl e ↦ rw (e, not-le 68 (length message) (ltb→lt (length message) 68 e)) refl
          | inr e ↦
              rw
                (
                  e,
                  le→leb 68 (length message) (not-below 68 e),
                  slice-long 4 24 message (omega arith) (omega (arith, not-below 68 e)),
                  slice-long 24 44 message (omega arith) (omega (arith, not-below 68 e)),
                )
                (elim (Bool-cases (ltb (length message) 76)) [
                  | inl f ↦ rw (f, slice-short 44 76 message (ltb→lt (length message) 76 f)) refl
                  | inr f ↦ rw (f, slice-long 44 76 message (omega arith) (not-below 76 f)) refl
                ])
        ])
    where
      not-below : (n : ℕ) → ltb (length message) n ≡ false → n ≤ length message
      not-below n e = ground arith

  -- The parser reads back recipient, token and amount from the message that the ERC20 bridge sends,
  -- whatever follows them in it.
  pub erc20_event-encoded :
      (log : L2Log) (to token amount : ℕ) (rest : List ℕ)
      → message_sender log ≡ bridge
      → length erc20 ≡ 4
      → to < 256 ^ 20
      → token < 256 ^ 20
      → amount < 256 ^ 32
      → erc20_event eth erc20 bridge l1_block_number batch_number log (
          erc20 ++ (to_be_bytes 20 to ++ (to_be_bytes 20 token ++ (to_be_bytes 32 amount ++ rest))))
        ≡ ok (event l1_block_number batch_number log token to amount ∷ [])
  unfolding erc20_event
  erc20_event-encoded log to token amount rest s l t k a =
      rw
        (
          (==_iff (message_sender log) bridge).1 s,
          slice-middle 0 4 [] erc20 (recipient ++ (address ++ (value ++ rest))) refl
              (omega (arith, l)),
          equal_bytes_refl erc20,
          le→leb 68 (length message) long,
          at_to,
          at_token,
          at_amount,
          from_be_bytes-to_be_bytes 20 to t,
          from_be_bytes-to_be_bytes 20 token k,
          from_be_bytes-to_be_bytes 32 amount a,
        )
        refl
    where
      recipient : List ℕ
      recipient = to_be_bytes 20 to

      address : List ℕ
      address = to_be_bytes 20 token

      value : List ℕ
      value = to_be_bytes 32 amount

      message : List ℕ
      message = erc20 ++ (recipient ++ (address ++ (value ++ rest)))

      long : 68 ≤ length message
      long = omega (
        arith,
        l,
        length-append erc20 (recipient ++ (address ++ (value ++ rest))),
        length-append recipient (address ++ (value ++ rest)),
        length-append address (value ++ rest),
        length-append value rest,
        length-to_be_bytes 20 to,
        length-to_be_bytes 20 token,
        length-to_be_bytes 32 amount,
      )

      at_to : slice 4 24 message ≡ ok recipient
      at_to =
          slice-middle 4 24 erc20 recipient (address ++ (value ++ rest)) l
            (omega (arith, length-to_be_bytes 20 to))

      at_token : slice 24 44 message ≡ ok address
      at_token =
          subst (λ m. slice 24 44 m ≡ ok address)
            (append_assoc erc20 recipient (address ++ (value ++ rest)))
            (slice-middle 24 44 (erc20 ++ recipient) address (value ++ rest)
              (omega (arith, length-append erc20 recipient, l, length-to_be_bytes 20 to))
              (omega (arith, length-to_be_bytes 20 token)))

      at_amount : slice 44 76 message ≡ ok value
      at_amount =
          subst (λ m. slice 44 76 m ≡ ok value)
            (append_assoc (erc20 ++ recipient) address (value ++ rest)
              ∙ append_assoc erc20 recipient (address ++ (value ++ rest)))
            (slice-middle 44 76 ((erc20 ++ recipient) ++ address) value rest
              (omega (
                arith,
                length-append (erc20 ++ recipient) address,
                length-append erc20 recipient,
                l,
                length-to_be_bytes 20 to,
                length-to_be_bytes 20 token,
              ))
              (omega (arith, length-to_be_bytes 32 amount)))
