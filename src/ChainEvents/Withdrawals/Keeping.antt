-- ===== src/ChainEvents/Withdrawals/Keeping.antt =====
-- chain-events/src/l2_events.rs: what holds throughout the processing of logs.
use zksync_withdrawal_finali.Common.{
  ℕ, suc, Bool, true, false, Option, none, some, List, [], ◌∷◌, ◌++◌, leb, Bool-cases, inl, inr,
  Outcome, ok, err, panic,
}
use zksync_withdrawal_finali.Common.Actions.{lift, attempt}
use zksync_withdrawal_finali.Common.Actions.Hoare.{
  Post, Triple, Triple-bind, Triple-pure, Triple-lift, Triple-attempt,
}
use zksync_withdrawal_finali.Client.Types.{Log}
use zksync_withdrawal_finali.Storage.Tokens.{L2TokenInitEvent}
use zksync_withdrawal_finali.Watcher.Withdrawals.{
  L2Event, l2_token_init_event, restarted_from_block,
}
use zksync_withdrawal_finali.ChainEvents.World.{Error, EthLog}
use zksync_withdrawal_finali.ChainEvents.Withdrawals.{
  with_token, Abi, Env, State, M, call, get_tokens, insert_token, run_send, send,
}
use zksync_withdrawal_finali.ChainEvents.Withdrawals.Deployments.{
  send_if_new, if_initialized, if_found, process_deployment, process_deployments,
  query_past_token_init_events,
}
use zksync_withdrawal_finali.ChainEvents.Withdrawals.Run.{past_tokens}

-- An assertion about the tokens and the events sent, which neither a new token nor an event of `Ok`
-- ends.
pub record IsKept (Ok : L2Event → Type 0) (Q : List ℕ → List L2Event → Type 0) : Type 0 where
  pub token_ok : (token : L2TokenInitEvent) → Ok (l2_token_init_event token)
  pub restart_ok : (n : ℕ) → Ok (restarted_from_block n)
  pub on_token :
      (address : ℕ) (tokens : List ℕ) (sent : List L2Event)
      → Q tokens sent
      → Q (with_token address tokens) sent
  pub on_event :
      (event : L2Event) (tokens : List ℕ) (sent : List L2Event)
      → Ok event
      → Q tokens sent
      → Q tokens (sent ++ event ∷ [])

module _ (Q : List ℕ → List L2Event → Type 0) where
  abbrev pub In : State → Type 0
  In s = Q s.tokens s.sent

  abbrev pub Keeps : {A : Type 0} → M A → Type 0
  Keeps m = Triple In m (λ a. In) In

  Post-In : {A : Type 0} (o : Outcome Error A) (s : State) → In s → Post (λ a. In) In (o, s)
  Post-In (ok a) s q = q
  Post-In (err e) s q = q
  Post-In panic s q = q

  pub Keeps-call : {A : Type 0} (answer : ℕ → Outcome Error A) → Keeps (call answer)
  unfolding call
  Keeps-call answer = record {
    at = λ s q. Post-In (answer s.calls) (record s { calls = suc s.calls }) q;
  }

  pub Keeps-lift : {A : Type 0} (o : Outcome Error A) → Keeps (lift o)
  Keeps-lift o = Triple-lift o (λ a s e q. q) (λ s q. q)

  pub Keeps-get_tokens : Keeps get_tokens
  unfolding get_tokens
  Keeps-get_tokens = record { at = λ s q. q }

  pub Keeps-attempt : {A : Type 0} {m : M A} → Keeps m → Keeps (attempt m)
  Keeps-attempt k = Triple-attempt (λ a s q. q) (λ e s q. q) (λ s q. q) k

  module _ {Ok : L2Event → Type 0} (kept : IsKept Ok Q) where
    Post-send :
        (closed : Bool) (event : L2Event) (s : State)
        → Ok event
        → In s
        → Post (λ a. In) In (run_send closed event s)
    Post-send true event s o q = q
    Post-send false event s o q = kept.on_event event s.tokens s.sent o q

    pub Keeps-send : (env : Env) (event : L2Event) → Ok event → Keeps (send env event)
    unfolding send
    Keeps-send env event o = record { at = λ s q. Post-send (env.closed s.calls) event s o q }

    Keeps-insert_token : (address : ℕ) → Keeps (insert_token address)
    unfolding insert_token
    Keeps-insert_token address = record { at = λ s q. kept.on_token address s.tokens s.sent q }

    module _ (abi : Abi) (env : Env) where
      Keeps-send_if_new :
          (event : L2TokenInitEvent) (inserted : Bool) → Keeps (send_if_new abi env event inserted)
      Keeps-send_if_new event false = Triple-pure false (λ s q. q)
      Keeps-send_if_new event true =
          Triple-bind _ _ (Keeps-send env (l2_token_init_event event) (kept.token_ok event))
            (λ t. Triple-pure true (λ s q. q))

      Keeps-if_initialized :
          (event : Option L2TokenInitEvent) → Keeps (if_initialized abi env event)
      Keeps-if_initialized none = Triple-pure false (λ s q. q)
      Keeps-if_initialized (some event) =
          Triple-bind _ _ (Keeps-insert_token event.l2_token_address) (Keeps-send_if_new event)

      Keeps-if_found : (found : Option Log) → Keeps (if_found abi env found)
      Keeps-if_found none = Triple-pure false (λ s q. q)
      Keeps-if_found (some log) =
          Triple-bind _ _ Keeps-get_tokens
            (λ tokens. Triple-bind _ _ (Keeps-lift _) Keeps-if_initialized)

      pub Keeps-process_deployment : (log : EthLog) → Keeps (process_deployment abi env log)
      unfolding process_deployment
      Keeps-process_deployment log = Triple-bind _ _ (Keeps-lift _) (λ hash.
          Triple-bind _ _ (Keeps-call _) (λ tx. Triple-bind _ _ (Keeps-lift _) Keeps-if_found))

      Keeps-process_deployments : (logs : List EthLog) → Keeps (process_deployments abi env logs)
      unfolding process_deployments
      Keeps-process_deployments [] = Triple-pure tt (λ s q. q)
      Keeps-process_deployments (log ∷ logs) =
          Triple-bind _ _ (Keeps-process_deployment log) (λ added. Keeps-process_deployments logs)

      Keeps-query_past_token_init_events :
          (deployers : List ℕ) (from_block to_block : ℕ)
          → Keeps (query_past_token_init_events abi env deployers from_block to_block)
      unfolding query_past_token_init_events
      Keeps-query_past_token_init_events deployers from_block to_block =
          Triple-bind _ _ (Keeps-call _) Keeps-process_deployments

      pub Keeps-past_tokens :
          (deployers : List ℕ) (from_block last_token latest_block : ℕ)
          → Keeps (past_tokens abi env deployers from_block last_token latest_block)
      Keeps-past_tokens deployers from_block last_token latest_block =
          elim (Bool-cases (leb last_token from_block)) [
            | inl t ↦ rw t (Keeps-query_past_token_init_events deployers last_token latest_block)
            | inr t ↦ rw t (Triple-pure tt (λ s q. q))
          ]
