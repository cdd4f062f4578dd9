-- ===== src/ChainEvents/Withdrawals/Covering.antt =====
-- chain-events/src/l2_events.rs: what a run over the logs has sent.
use mathlib.Core.List.{Mem, mem-append_left, mem-append_right, mem-cons_self}
use zksync_withdrawal_finali.Common.{
  ℕ, ◌≡◌, refl, subst, Bool, true, false, Option, none, some, List, [], ◌∷◌, ◌++◌, Bool-cases, inl,
  inr,
}
use zksync_withdrawal_finali.Common.Actions.Hoare.{
  Post, Triple, Triple-bind, Triple-pure, Triple-attempt, Triple-imp,
}
use zksync_withdrawal_finali.Client.{WithdrawalEvent}
use zksync_withdrawal_finali.Client.Node.{nth}
use zksync_withdrawal_finali.Watcher.Withdrawals.{L2Event, withdrawal}
use zksync_withdrawal_finali.ChainEvents.World.{EthLog, raw_log}
use zksync_withdrawal_finali.ChainEvents.Withdrawals.{
  L2Events, bridge_burn, withdrawn, contract_deployed, Abi, Env, State, run_send, send,
}
use zksync_withdrawal_finali.ChainEvents.Withdrawals.Run.{
  send_withdrawal, process_mined, if_mined, process_l2_event, from_deployer, ends, process_and_log,
  process_decoded,
}
use zksync_withdrawal_finali.ChainEvents.Withdrawals.Keeping.{IsKept, In, Keeps-process_deployment}

-- The withdrawal that a log of a transaction in a block says.
abbrev pub event_of : Option ℕ → Option ℕ → ℕ → Option L2Events → Option WithdrawalEvent
event_of none block_number token event = none
event_of (some tx_hash) none token event = none
event_of (some tx_hash) (some block_number) token none = none
event_of (some tx_hash) (some block_number) token (some contract_deployed) = none
event_of (some tx_hash) (some block_number) token (some (bridge_burn amount)) =
    some record { tx_hash = tx_hash; block_number = block_number; token = token; amount = amount }
event_of (some tx_hash) (some block_number) token (some (withdrawn amount)) =
    some record { tx_hash = tx_hash; block_number = block_number; token = token; amount = amount }

abbrev pub withdrawal_in : Abi → EthLog → Option WithdrawalEvent
withdrawal_in abi log =
    event_of log.transaction_hash log.block_number log.address (abi.decode_log (raw_log log))

-- It is among the events that were sent.
abbrev pub IsSent : Option WithdrawalEvent → List L2Event → Type 0
IsSent found sent = (w : WithdrawalEvent) → found ≡ some w → Mem (withdrawal w) sent

pub IsSent-append :
    (found : Option WithdrawalEvent) (event : L2Event) (sent : List L2Event)
    → IsSent found sent
    → IsSent found (sent ++ event ∷ [])
IsSent-append found event sent h w e = mem-append_left (event ∷ []) (h w e)

IsSent-none : (sent : List L2Event) → IsSent none sent
IsSent-none sent w e = cc

module _ {Ok : L2Event → Type 0} {Q : List ℕ → List L2Event → Type 0} (kept : IsKept Ok Q) where
  -- Also, what `found` says is sent.
  abbrev pub Sent : Option WithdrawalEvent → State → Type 0
  Sent found s = In Q s × IsSent found s.sent

  -- Whatever withdrawal `found` is may be sent.
  abbrev pub MayBeSent : Option WithdrawalEvent → Type 0
  MayBeSent found = (w : WithdrawalEvent) → found ≡ some w → Ok (withdrawal w)

  module _ (abi : Abi) (env : Env) where
    Post-send-Sent :
        (closed : Bool) (w : WithdrawalEvent) (s : State)
        → Ok (withdrawal w)
        → In Q s
        → Post (λ t. Sent (some w)) (In Q) (run_send closed (withdrawal w) s)
    Post-send-Sent true w s o q = q
    Post-send-Sent false w s o q = (
      kept.on_event (withdrawal w) s.tokens s.sent o q,
      λ v e.
          let same : w ≡ v = cc in
          subst (λ v. Mem (withdrawal v) (s.sent ++ withdrawal w ∷ [])) same
            (mem-append_right s.sent mem-cons_self),
    )

    send_withdrawal-Sent :
        (tx_hash block_number amount : ℕ) (log : EthLog) (w : WithdrawalEvent)
        → w ≡ record {
          tx_hash = tx_hash;
          block_number = block_number;
          token = log.address;
          amount = amount;
        }
        → Ok (withdrawal w)
        → Triple
            (In Q)
            (send_withdrawal abi env tx_hash block_number log amount)
            (λ added. Sent (some w))
            (In Q)
    unfolding send
    send_withdrawal-Sent tx_hash block_number amount log w same o =
        Triple-bind {Q = λ t. Sent (some w)} _ _
          (subst (λ v. Triple (In Q) (send env (withdrawal v)) (λ t. Sent (some w)) (In Q)) same
            record { at = λ s q. Post-send-Sent (env.closed s.calls) w s o q })
          (λ t. Triple-pure false (λ s q. q))

    process_mined-Sent :
        (tx_hash block_number : ℕ) (log : EthLog) (event : L2Events)
        → MayBeSent (event_of (some tx_hash) (some block_number) log.address (some event))
        → Triple
            (In Q)
            (process_mined abi env tx_hash block_number log event)
            (λ added. Sent (event_of (some tx_hash) (some block_number) log.address (some event)))
            (In Q)
    unfolding process_mined
    process_mined-Sent tx_hash block_number log (bridge_burn amount) o =
        send_withdrawal-Sent tx_hash block_number amount log _ refl (o _ refl)
    process_mined-Sent tx_hash block_number log (withdrawn amount) o =
        send_withdrawal-Sent tx_hash block_number amount log _ refl (o _ refl)
    process_mined-Sent tx_hash block_number log contract_deployed o =
        Triple-imp (λ s q. q) (λ a s q. (q, IsSent-none s.sent)) (λ s q. q)
          (Keeps-process_deployment Q kept abi env log)

    if_mined-Sent :
        (tx_hash block_number : Option ℕ) (log : EthLog) (event : L2Events)
        → MayBeSent (event_of tx_hash block_number log.address (some event))
        → Triple
            (In Q)
            (if_mined abi env tx_hash block_number log event)
            (λ added. Sent (event_of tx_hash block_number log.address (some event)))
            (In Q)
    if_mined-Sent none block_number log event o = Triple-pure false (λ s q. (q, IsSent-none s.sent))
    if_mined-Sent (some tx_hash) none log event o =
        Triple-pure false (λ s q. (q, IsSent-none s.sent))
    if_mined-Sent (some tx_hash) (some block_number) log event o =
        process_mined-Sent tx_hash block_number log event o

    process_l2_event-Sent :
        (log : EthLog) (event : L2Events)
        → MayBeSent (event_of log.transaction_hash log.block_number log.address (some event))
        → Triple
            (In Q)
            (process_l2_event abi env log event)
            (λ added.
              Sent (event_of log.transaction_hash log.block_number log.address (some event)))
            (In Q)
    unfolding process_l2_event
    process_l2_event-Sent log event o =
        if_mined-Sent log.transaction_hash log.block_number log event o

    -- Unless the loop ends here.
    abbrev pub SentOrOver : Option WithdrawalEvent → Bool → State → Type 0
    SentOrOver found over s = In Q s × (over ≡ false → IsSent found s.sent)

    process_and_log-Sent :
        (log : EthLog) (event : L2Events)
        → MayBeSent (event_of log.transaction_hash log.block_number log.address (some event))
        → Triple
            (In Q)
            (process_and_log abi env log event)
            (SentOrOver (event_of log.transaction_hash log.block_number log.address (some event)))
            (In Q)
    process_and_log-Sent log event o =
        Triple-bind
          {Q = λ result.
            SentOrOver (event_of log.transaction_hash log.block_number log.address (some event))
              (ends result)}
          _ _
          (Triple-attempt (λ added s q. (q.0, λ f. q.1)) (λ e s q. (q, λ f. cc)) (λ s q. q)
            (process_l2_event-Sent log event o))
          (λ result. Triple-pure (ends result) (λ s q. q))

    event_of-deployed :
        (tx_hash block_number : Option ℕ) (token : ℕ)
        → event_of tx_hash block_number token (some contract_deployed) ≡ none
    event_of-deployed none block_number token = refl
    event_of-deployed (some tx_hash) none token = refl
    event_of-deployed (some tx_hash) (some block_number) token = refl

    event_of-unknown :
        (tx_hash block_number : Option ℕ) (token : ℕ)
        → event_of tx_hash block_number token none ≡ none
    event_of-unknown none block_number token = refl
    event_of-unknown (some tx_hash) none token = refl
    event_of-unknown (some tx_hash) (some block_number) token = refl

    pub process_decoded-Sent :
        (log : EthLog) (event : Option L2Events)
        → MayBeSent (event_of log.transaction_hash log.block_number log.address event)
        → Triple
            (In Q)
            (process_decoded abi env log event)
            (SentOrOver (event_of log.transaction_hash log.block_number log.address event))
            (In Q)
    unfolding process_decoded
    process_decoded-Sent log none o = Triple-pure false (λ s q. (
      q,
      λ f.
          rw (event_of-unknown log.transaction_hash log.block_number log.address)
            (IsSent-none s.sent),
    ))
    process_decoded-Sent log (some contract_deployed) o =
        elim (Bool-cases (from_deployer (nth 1 log.topics))) [
          | inl t ↦ rw t (process_and_log-Sent log contract_deployed o)
          | inr t ↦ rw t (
              Triple-pure false (λ s q. (
                q,
                λ f.
                    rw (event_of-deployed log.transaction_hash log.block_number log.address)
                      (IsSent-none s.sent),
              )))
        ]
    process_decoded-Sent log (some (bridge_burn amount)) o =
        process_and_log-Sent log (bridge_burn amount) o
    process_decoded-Sent log (some (withdrawn amount)) o =
        process_and_log-Sent log (withdrawn amount) o
