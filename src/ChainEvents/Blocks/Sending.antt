-- ===== src/ChainEvents/Blocks/Sending.antt =====
-- chain-events/src/block_events.rs: what the processing of a log sends.
use mathlib.Core.List.{Mem, mem-append_left, mem-append_right, mem-cons_self}
use zksync_withdrawal_finali.Common.{
  ℕ, zero, suc, ◌≡◌, subst, Bool, true, false, Option, none, some, List, [], ◌∷◌, ◌++◌, Outcome, ok,
  err, panic,
}
use zksync_withdrawal_finali.Common.Actions.{pure, lift}
use zksync_withdrawal_finali.Common.Actions.Hoare.{
  Post, Triple, Triple-bind, Triple-pure, Triple-lift, Triple-attempt, Triple-imp,
}
use zksync_withdrawal_finali.Watcher.Blocks.{
  BatchFilter, BlockEvent, block_commit, block_execution, blocks_verification, l2_to_l1,
}
use zksync_withdrawal_finali.ChainEvents.World.{Error, EthLog}
use zksync_withdrawal_finali.ChainEvents.Blocks.{
  L1Events, commit, verification, execution, Transaction, Abi, Env, State, M, call, run_send, send,
  mined_or, get_tx_with_retries, process_commit, process_l1_event, process_decoded,
}

-- The event that a log in a block stands for.
abbrev pub event_of : ℕ → L1Events → BlockEvent
event_of n (commit bc) = block_commit n bc
event_of n (verification e) = blocks_verification n e
event_of n (execution e) = block_execution n e

abbrev pub own_event : Option ℕ → Option L1Events → Option BlockEvent
own_event none event = none
own_event (some n) none = none
own_event (some n) (some event) = some (event_of n event)

abbrev pub IsSent : Option BlockEvent → List BlockEvent → Type 0
IsSent own sent = (e : BlockEvent) → own ≡ some e → Mem e sent

pub IsSent-append :
    (own : Option BlockEvent) (event : BlockEvent) (sent : List BlockEvent)
    → IsSent own sent
    → IsSent own (sent ++ event ∷ [])
IsSent-append own event sent h e o = mem-append_left (event ∷ []) (h e o)

module _ (Q : List BlockEvent → Type 0) where
  -- An assertion about the events sent, which no further event ends.
  abbrev pub IsKept : Type 0
  IsKept = (event : BlockEvent) (sent : List BlockEvent) → Q sent → Q (sent ++ event ∷ [])

  abbrev pub In : State → Type 0
  In s = Q s.sent

  abbrev pub Keeps : {A : Type 0} → M A → Type 0
  Keeps m = Triple In m (λ a. In) In

  Post-In : {A : Type 0} (o : Outcome Error A) (s : State) → In s → Post (λ a. In) In (o, s)
  Post-In (ok a) s q = q
  Post-In (err e) s q = q
  Post-In panic s q = q

  pub Keeps-call : {A : Type 0} (answer : ℕ → Outcome Error A) → Keeps (call answer)
  unfolding call
  Keeps-call answer = record {
    at = λ s q. Post-In (answer s.calls) (record s { calls = suc s.calls }) q;
  }

  pub Keeps-lift : {A : Type 0} (o : Outcome Error A) → Keeps (lift o)
  Keeps-lift o = Triple-lift o (λ a s e q. q) (λ s q. q)

  module _ (env : Env) where
    mined-Keeps :
        (next : M (Option Transaction)) (tx : Transaction) (n : Option ℕ)
        → Keeps next
        → Keeps (elim n [ none ↦ next | some b ↦ pure (some tx) ])
    mined-Keeps next tx none k = k
    mined-Keeps next tx (some b) k = Triple-pure (some tx) (λ s q. q)

    Keeps-mined_or :
        (next : M (Option Transaction)) (answer : Outcome Error (Option Transaction))
        → Keeps next
        → Keeps (mined_or env next answer)
    Keeps-mined_or next (ok (some tx)) k = mined-Keeps next tx tx.block_number k
    Keeps-mined_or next (ok none) k = k
    Keeps-mined_or next (err e) k = k
    Keeps-mined_or next panic k = k

    Keeps-get_tx_with_retries :
        (tx_hash retries : ℕ) → Keeps (get_tx_with_retries env tx_hash retries)
    unfolding get_tx_with_retries
    Keeps-get_tx_with_retries tx_hash zero = Triple-pure none (λ s q. q)
    Keeps-get_tx_with_retries tx_hash (suc retries) =
        Triple-bind _ _ (Triple-attempt (λ a s q. q) (λ e s q. q) (λ s q. q) (Keeps-call _))
          (λ answer. Keeps-mined_or _ answer (Keeps-get_tx_with_retries tx_hash retries))

    module _ (kept : IsKept) where
      Post-send :
          (closed : Bool) (event : BlockEvent) (s : State)
          → In s
          → Post (λ t s. In s × Mem event s.sent) In (run_send closed event s)
      Post-send true event s q = q
      Post-send false event s q = (kept event s.sent q, mem-append_right s.sent mem-cons_self)

      Triple-send :
          (event : BlockEvent) → Triple In (send env event) (λ t s. In s × Mem event s.sent) In
      unfolding send
      Triple-send event = record { at = λ s q. Post-send (env.closed s.calls) event s q }

      module _ (abi : Abi) (l2_erc20_bridge_addr : ℕ) where
        process_commit-Sends :
            (n : ℕ) (bc : BatchFilter) (hash : Option ℕ)
            → Triple In
                (process_commit env abi l2_erc20_bridge_addr n bc hash)
                (λ t s. In s × Mem (block_commit n bc) s.sent)
                In
        process_commit-Sends n bc hash = Triple-bind _ _ (Keeps-lift _) (λ h.
            Triple-bind _ _ (Keeps-get_tx_with_retries h _) (λ found.
              Triple-bind _ _ (Keeps-lift _) (λ tx. Triple-bind _ _ (Keeps-lift _) (λ events.
                Triple-bind _ _
                  (Triple-imp (λ s q. q) (λ t s q. q.0) (λ s q. q) (Triple-send (l2_to_l1 events)))
                  (λ t. Triple-send (block_commit n bc))))))

        process_l1_event-Sends :
            (n : ℕ) (log : EthLog) (event : L1Events)
            → Triple In
                (process_l1_event env abi l2_erc20_bridge_addr n log event)
                (λ t s. In s × Mem (event_of n event) s.sent)
                In
        unfolding process_l1_event
        process_l1_event-Sends n log (commit bc) = process_commit-Sends n bc log.transaction_hash
        process_l1_event-Sends n log (verification e) = Triple-send (blocks_verification n e)
        process_l1_event-Sends n log (execution e) = Triple-send (block_execution n e)

        same_event :
            (e f : BlockEvent) (sent : List BlockEvent) → some e ≡ some f → Mem e sent → Mem f sent
        same_event e f sent same m = let q : e ≡ f = cc in subst (λ x. Mem x sent) q m

        pub process_decoded-Sends :
            (n : ℕ) (log : EthLog) (event : Option L1Events)
            → Triple In
                (process_decoded env abi l2_erc20_bridge_addr n log event)
                (λ t s. In s × IsSent (own_event (some n) event) s.sent)
                In
        process_decoded-Sends n log none = Triple-pure tt (λ s q. (q, λ e o. cc))
        process_decoded-Sends n log (some event) =
            Triple-imp (λ s q. q) (λ t s h. (h.0, λ e o. same_event _ e s.sent o h.1)) (λ s q. q)
              (process_l1_event-Sends n log event)
