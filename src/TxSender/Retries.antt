-- ===== src/TxSender/Retries.antt =====
-- tx-sender/src/lib.rs: what the retries send, and whose receipt comes back.
use zksync_withdrawal_finali.Common.{
  ℕ, zero, suc, ◌≡◌, refl, Option, some, List, [], ◌∷◌, All, Outcome, ok, err, panic, arith,
  Bool-cases, inl, inr, ltb, ◌∙◌, subst, >>=-eq-ok, Outcome-cases,
}
use zksync_withdrawal_finali.TxSender.{
  Middleware, MiddlewareError, TransactionReceipt, TypedTransaction, legacy, eip2930, eip1559,
  Pending, timed_out, resolved, failed, bump_predicted_fees, Receipt, settle, attempt, prepare,
  send_loop, send_tx_adjust_gas, set_nonce, set_gas, max_attempts, retry_bump_fees_percent,
}
use zksync_withdrawal_finali.TxSender.Fees.{FeesRise, bump_predicted_fees-FeesRise}

abbrev pub nonce_of : TypedTransaction → Option ℕ
nonce_of (legacy tx) = tx.nonce
nonce_of (eip2930 tx) = tx.nonce
nonce_of (eip1559 tx) = tx.nonce

abbrev pub gas_of : TypedTransaction → Option ℕ
gas_of (legacy tx) = tx.gas
gas_of (eip2930 tx) = tx.gas
gas_of (eip1559 tx) = tx.gas

-- A transaction with the nonce and the gas limit that the caller asked for.
abbrev pub IsReplacement : ℕ → ℕ → TypedTransaction → Type 0
IsReplacement nonce gas tx = (nonce_of tx ≡ some nonce) × (gas_of tx ≡ some gas)

gas_of-bump :
    (m : Middleware) (n percent : ℕ) (tx tx' : TypedTransaction)
    → bump_predicted_fees m n percent tx ≡ ok tx'
    → gas_of tx' ≡ gas_of tx
unfolding bump_predicted_fees
gas_of-bump m n percent (legacy tx) tx' e = ground arith
gas_of-bump m n percent (eip2930 tx) tx' e = ground arith
gas_of-bump m n percent (eip1559 tx) tx' e = ground arith

gas_of-set_nonce : (n : ℕ) (tx : TypedTransaction) → gas_of (set_nonce n tx) ≡ gas_of tx
gas_of-set_nonce n tx = ground arith

nonce_of-set_nonce : (n : ℕ) (tx : TypedTransaction) → nonce_of (set_nonce n tx) ≡ some n
nonce_of-set_nonce n tx = ground arith

FeesRise-set_nonce :
    (n : ℕ) (tx tx' : TypedTransaction) → FeesRise tx tx' → FeesRise tx (set_nonce n tx')
FeesRise-set_nonce n tx (legacy t) h = h
FeesRise-set_nonce n tx (eip2930 t) h = h
FeesRise-set_nonce n tx (eip1559 t) h = h

FeesRise-refl : (tx : TypedTransaction) → FeesRise tx tx
FeesRise-refl tx = ground arith

retry_lem :
    (m : Middleware) (nonce gas n : ℕ) (tx bumped : TypedTransaction)
    → IsReplacement nonce gas tx
    → bump_predicted_fees m n retry_bump_fees_percent tx ≡ ok bumped
    → IsReplacement nonce gas (set_nonce nonce bumped) × FeesRise tx (set_nonce nonce bumped)
retry_lem m nonce gas n tx bumped r e = (
  (
    nonce_of-set_nonce nonce bumped,
    gas_of-set_nonce nonce bumped ∙ gas_of-bump m n retry_bump_fees_percent tx bumped e ∙ r.1,
  ),
  FeesRise-set_nonce nonce tx bumped
      (bump_predicted_fees-FeesRise m n retry_bump_fees_percent tx bumped e),
)

-- What one attempt makes of the transaction of the attempt before.
prepare_lem :
    (m : Middleware) (nonce gas n : ℕ) (tx tx' : TypedTransaction)
    → IsReplacement nonce gas tx
    → prepare m nonce n tx ≡ ok tx'
    → IsReplacement nonce gas tx' × FeesRise tx tx'
unfolding prepare
prepare_lem m nonce gas n tx tx' r e = elim (Bool-cases (ltb 0 n)) [
  | inl again ↦
      let (bumped, p, q) =
        >>=-eq-ok (bump_predicted_fees m n retry_bump_fees_percent tx)
          (λ bumped. ok (set_nonce nonce bumped)) (rw again at e) in
      let same : set_nonce nonce bumped ≡ tx' = cc in
      subst (λ t. IsReplacement nonce gas t × FeesRise tx t) same
        (retry_lem m nonce gas n tx bumped r p)
  | inr first ↦
      let same : tx ≡ tx' = ground arith in
      subst (λ t. IsReplacement nonce gas t × FeesRise tx t) same (r, FeesRise-refl tx)
]

-- The fees rise along the list.
abbrev pub Rising : TypedTransaction → List TypedTransaction → Type 0
Rising tx [] = Unit
Rising tx (t ∷ ts) = FeesRise tx t × Rising t ts

-- The transactions that were sent from the n-th attempt on all timed out, but the last, whose
-- receipt is `receipt`.
abbrev pub Answered : Middleware → ℕ → List TypedTransaction → Option TransactionReceipt → Type 0
Answered m n [] receipt = ⊥
Answered m n (t ∷ []) receipt = m.send_transaction n t ≡ ok (resolved receipt)
Answered m n (t ∷ u ∷ ts) receipt =
    (m.send_transaction n t ≡ ok timed_out) × Answered m (suc n) (u ∷ ts) receipt

abbrev pub Sends : ℕ → ℕ → TypedTransaction → List TypedTransaction → Type 0
Sends nonce gas tx sent = All (IsReplacement nonce gas) sent × Rising tx sent

-- A receipt that came back was the last transaction's.
abbrev pub Explains : Middleware → ℕ → Receipt × List TypedTransaction → Type 0
Explains m n r = (receipt : Option TransactionReceipt) → r.0 ≡ ok receipt → Answered m n r.1 receipt

abbrev Good : Middleware → ℕ → ℕ → ℕ → TypedTransaction → Receipt × List TypedTransaction → Type 0
Good m nonce gas n tx r = Sends nonce gas tx r.1 × Explains m n r

Explains-cons :
    (m : Middleware) (n : ℕ) (t : TypedTransaction) (r : Receipt × List TypedTransaction)
    → m.send_transaction n t ≡ ok timed_out
    → Explains m (suc n) r
    → Explains m n (r.0, t ∷ r.1)
Explains-cons m n t (o, []) s h receipt e = absurd (h receipt e)
Explains-cons m n t (o, u ∷ us) s h receipt e = (s, h receipt e)

settle-Good :
    (m : Middleware) (nonce gas n : ℕ) (tx t : TypedTransaction)
    (retry : TypedTransaction → Receipt × List TypedTransaction)
    (o : Outcome MiddlewareError Pending)
    → m.send_transaction n t ≡ o
    → IsReplacement nonce gas t
    → FeesRise tx t
    → Good m nonce gas (suc n) t (retry t)
    → Good m nonce gas n tx (settle m retry t o)
unfolding settle
settle-Good m nonce gas n tx t retry (err e) s h f g = ((tt, tt), λ receipt e. cc)
settle-Good m nonce gas n tx t retry panic s h f g = ((tt, tt), λ receipt e. cc)
settle-Good m nonce gas n tx t retry (ok (resolved receipt)) s h f g =
    (((h, tt), (f, tt)), λ receipt' e. cc)
settle-Good m nonce gas n tx t retry (ok (failed e)) s h f g = (((h, tt), (f, tt)), λ receipt e. cc)
settle-Good m nonce gas n tx t retry (ok timed_out) s h f g =
    (((h, g.0.0), (f, g.0.1)), Explains-cons m n t (retry t) s g.1)

attempt-Good :
    (m : Middleware) (nonce gas n : ℕ) (tx : TypedTransaction)
    (retry : TypedTransaction → Receipt × List TypedTransaction)
    (o : Outcome MiddlewareError TypedTransaction)
    → ((t : TypedTransaction) → o ≡ ok t → IsReplacement nonce gas t × FeesRise tx t)
    → ((t : TypedTransaction) → IsReplacement nonce gas t → Good m nonce gas (suc n) t (retry t))
    → Good m nonce gas n tx (attempt m n retry o)
unfolding attempt
attempt-Good m nonce gas n tx retry (err e) p g = ((tt, tt), λ receipt e. cc)
attempt-Good m nonce gas n tx retry panic p g = ((tt, tt), λ receipt e. cc)
attempt-Good m nonce gas n tx retry (ok t) p g =
    settle-Good m nonce gas n tx t retry (m.send_transaction n t) refl (p t refl).0 (p t refl).1
      (g t (p t refl).0)

send_loop-Good :
    (m : Middleware) (nonce gas left n : ℕ) (tx : TypedTransaction)
    → IsReplacement nonce gas tx
    → Good m nonce gas n tx (send_loop m nonce left n tx)
unfolding send_loop
send_loop-Good m nonce gas zero n tx r = ((tt, tt), λ receipt e. cc)
send_loop-Good m nonce gas (suc left) n tx r =
    attempt-Good m nonce gas n tx (send_loop m nonce left (suc n)) (prepare m nonce n tx)
      (λ t. prepare_lem m nonce gas n tx t r) (send_loop-Good m nonce gas left (suc n))

filled-IsReplacement :
    (nonce gas : ℕ) (filled : TypedTransaction)
    → IsReplacement nonce gas (set_gas gas (set_nonce nonce filled))
filled-IsReplacement nonce gas filled = ground arith

-- Whatever the provider answers, every transaction that is sent has the nonce and the gas limit of
-- the call, and no fee falls from one to the next, nor from the filled transaction to the first.
pub send_tx_adjust_gas-Sends :
    (m : Middleware) (tx filled : TypedTransaction) (nonce gas_limit : ℕ)
    → m.fill_transaction tx ≡ ok filled
    → Sends nonce gas_limit
        (set_gas gas_limit (set_nonce nonce filled))
        (send_tx_adjust_gas m tx nonce gas_limit).1
unfolding send_tx_adjust_gas
send_tx_adjust_gas-Sends m tx filled nonce gas_limit e =
    rw (e, send_tx_adjust_gas)
      (send_loop-Good m nonce gas_limit max_attempts 0 (set_gas gas_limit (set_nonce nonce filled))
        (filled-IsReplacement nonce gas_limit filled)).0

-- A receipt comes back only from the last transaction that was sent, and those before it timed
-- out, one at each retry number from 0 on.
pub send_tx_adjust_gas-Explains :
    (m : Middleware) (tx : TypedTransaction) (nonce gas_limit : ℕ)
    → Explains m 0 (send_tx_adjust_gas m tx nonce gas_limit)
unfolding send_tx_adjust_gas
send_tx_adjust_gas-Explains m tx nonce gas_limit = elim (Outcome-cases (m.fill_transaction tx)) [
  | inr (inl (e, p)) ↦ rw (p, send_tx_adjust_gas) (λ receipt h. cc)
  | inr (inr p) ↦ rw (p, send_tx_adjust_gas) (λ receipt h. cc)
  | inl (filled, p) ↦
      rw (p, send_tx_adjust_gas)
        (send_loop-Good m nonce gas_limit max_attempts 0
          (set_gas gas_limit (set_nonce nonce filled))
          (filled-IsReplacement nonce gas_limit filled)).1
]
