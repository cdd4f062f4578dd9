-- ===== src/TxSender/Answers.antt =====
-- tx-sender/src/lib.rs: the sender returns when the chain answers at last.
use zksync_withdrawal_finali.Common.{
  ℕ, zero, suc, ◌+◌, ◌*◌, ◌/◌, ◌≤◌, ◌<◌, ◌≡◌, refl, sym, subst, Option, some, ok, arith, ltb,
  u256_mod, Bool-cases, inl, inr,
}
use zksync_withdrawal_finali.TxSender.{
  Middleware, TransactionRequest, TransactionReceipt, TypedTransaction, legacy, timed_out, resolved,
  prepare, send_loop, send_tx_adjust_gas, max_attempts,
}
use zksync_withdrawal_finali.TxSender.Fees.{bump_predicted_fees-legacy}

-- The number doubled so many times.
abbrev pub doubled : ℕ → ℕ → ℕ
doubled zero p = p
doubled (suc j) p = doubled j (p + p)

doubled-le : (j p q : ℕ) → p ≤ q → doubled j p ≤ doubled j q
doubled-le zero p q h = h
doubled-le (suc j) p q h = doubled-le j (p + p) (q + q) (omega arith)

le-doubled : (j p : ℕ) → p ≤ doubled j p
le-doubled zero p = omega arith
le-doubled (suc j) p = omega (arith, le-doubled j (p + p))

-- One attempt with a price: the price at most doubles.
prepare-legacy :
    (m : Middleware) (nonce n price : ℕ) (tx : TransactionRequest)
    → tx.gas_price ≡ some price
    → price * 15 < u256_mod
    → (tx' : TransactionRequest) × (price' : ℕ) × (prepare m nonce n (legacy tx) ≡ ok (legacy tx'))
      × (tx'.gas_price ≡ some price')
      × (price' ≤ price + price)
unfolding prepare
prepare-legacy m nonce n price tx e h = elim (Bool-cases (ltb 0 n)) [
  | inl again ↦ (
    record tx { gas_price = some (price + price * 15 / 100); nonce = some nonce },
    price + price * 15 / 100,
    rw (again, bump_predicted_fees-legacy m n 15 price tx e h (omega arith)) refl,
    refl,
    omega arith,
  )
  | inr first ↦ (tx, price, rw first refl, e, omega arith)
]

module _ (m : Middleware) (nonce k : ℕ) (receipt : Option TransactionReceipt) where
  send_loop-returns :
      (j left n price : ℕ) (tx : TransactionRequest)
      → ((i : ℕ) (t : TypedTransaction) → i < k → m.send_transaction i t ≡ ok timed_out)
      → ((t : TypedTransaction) → m.send_transaction k t ≡ ok (resolved receipt))
      → n + j ≡ k
      → j < left
      → tx.gas_price ≡ some price
      → doubled j (price * 15) < u256_mod
      → (send_loop m nonce left n (legacy tx)).0 ≡ ok receipt
  unfolding send_loop
  send_loop-returns j zero n price tx slow last at_k enough e h = absurd (omega arith)
  send_loop-returns zero (suc left) n price tx slow last at_k enough e h =
      let (tx', price', p, e', le) = prepare-legacy m nonce n price tx e h in
      let here : n ≡ k = omega arith in
      let answer : m.send_transaction n (legacy tx') ≡ ok (resolved receipt) =
        subst (λ i. m.send_transaction i (legacy tx') ≡ ok (resolved receipt)) (sym here)
          (last (legacy tx')) in
      rw (p, answer) refl
  send_loop-returns (suc j) (suc left) n price tx slow last at_k enough e h =
      let bound = le-doubled j (price * 15 + price * 15) in
      let (tx', price', p, e', le) = prepare-legacy m nonce n price tx e (omega arith) in
      let mono = doubled-le j (price' * 15) (price * 15 + price * 15) (omega arith) in
      let rest =
        send_loop-returns j left (suc n) price' tx' slow last (omega arith) (omega arith) e'
          (omega arith) in
      rw (p, slow n (legacy tx') (omega arith)) rest

-- If the node times out on the first `k` attempts and then answers with a receipt, and the gas
-- price of the filled legacy transaction is so small that doubling it `k` times leaves the fees of
-- each bump below the size of a U256, then that receipt is returned.
pub send_tx_adjust_gas-returns :
    (m : Middleware) (tx : TypedTransaction) (filled : TransactionRequest)
    (nonce gas_limit k price : ℕ) (receipt : Option TransactionReceipt)
    → m.fill_transaction tx ≡ ok (legacy filled)
    → filled.gas_price ≡ some price
    → k < max_attempts
    → doubled k (price * 15) < u256_mod
    → ((i : ℕ) (t : TypedTransaction) → i < k → m.send_transaction i t ≡ ok timed_out)
    → ((t : TypedTransaction) → m.send_transaction k t ≡ ok (resolved receipt))
    → (send_tx_adjust_gas m tx nonce gas_limit).0 ≡ ok receipt
unfolding send_tx_adjust_gas
send_tx_adjust_gas-returns m tx filled nonce gas_limit k price receipt f e few small slow last =
    rw (f, send_tx_adjust_gas)
      (send_loop-returns m nonce k receipt k max_attempts 0 price _ slow last (omega arith) few e
        small)
