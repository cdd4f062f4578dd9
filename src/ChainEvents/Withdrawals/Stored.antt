-- ===== src/ChainEvents/Withdrawals/Stored.antt =====
-- chain-events/src/l2_events.rs and watcher/src/lib.rs: the withdrawals that the listener sends, and
-- the watcher stores.
use mathlib.Core.List.{Mem, mem-append_right, append-nil}
use mathlib.Core.Logic.{∥∥₁_elim}
use native.Mathlib.Nat.{ℕ_set}
use zksync_withdrawal_finali.Common.{
  ℕ, zero, suc, ◌<◌, ◌≤◌, ◌≡◌, refl, sym, ap, ◌∙◌, subst, All, Bool, true, false, Option, none,
  some, List, [], ◌∷◌, ◌++◌, ok,
}
use zksync_withdrawal_finali.Common.Actions.Hoare.{
  Triple-any, Triple-imp, Post, Post-imp, Triple, Triple-bind, Triple-pure, Triple-attempt,
}
use zksync_withdrawal_finali.Client.{WithdrawalEvent}
use zksync_withdrawal_finali.Storage.Withdrawals.{StoredWithdrawal}
use zksync_withdrawal_finali.Watcher.World
use zksync_withdrawal_finali.Watcher.Withdrawals.{
  L2Event, withdrawal, l2_token_init_event, restarted_from_block, stored_withdrawals,
  enumerate_groups, group_by_tx, run_l2_events_loop,
}
use zksync_withdrawal_finali.Watcher.Withdrawals.Numbering.{
  InBlocks, numbered, last_after, stored_of,
}
use zksync_withdrawal_finali.Watcher.Withdrawals.Members.{events, events-append, mem-numbered}
use zksync_withdrawal_finali.Watcher.Withdrawals.Batching.{run_l2_events_loop-in_order}
use zksync_withdrawal_finali.ChainEvents.World.{EthLog}
use zksync_withdrawal_finali.ChainEvents.Withdrawals.{
  L2Events, bridge_burn, withdrawn, contract_deployed, Abi, Env, State, call, run_send, send,
}
use zksync_withdrawal_finali.ChainEvents.Withdrawals.Run.{
  Resume, resume, run_if_connected, rounds, run_with_reconnects,
}
use zksync_withdrawal_finali.ChainEvents.Withdrawals.Covering.{event_of, withdrawal_in}
use zksync_withdrawal_finali.ChainEvents.Withdrawals.Reading.{SentBelow, ComesFrom}
use zksync_withdrawal_finali.ChainEvents.Withdrawals.Rounds.{
  StreamsAreGapless, run_with_reconnects_complete,
}

last_after-restarted :
    (seen : List WithdrawalEvent) (sent : List L2Event) (n : ℕ)
    → last_after seen (sent ++ restarted_from_block n ∷ []) ≡ []
last_after-restarted seen [] n = refl
last_after-restarted seen (withdrawal e ∷ es) n = last_after-restarted (seen ++ e ∷ []) es n
last_after-restarted seen (l2_token_init_event token ∷ es) n = last_after-restarted seen es n
last_after-restarted seen (restarted_from_block m ∷ es) n = last_after-restarted [] es n

-- No withdrawal was sent after the last restart.
abbrev IsClosed : State → Type 0
IsClosed s = last_after [] s.sent ≡ []

abbrev Any : State → Type 0
Any s = Unit

module _ (abi : Abi) (env : Env) (deployers : List ℕ) where
  Post-restart :
      (closed : Bool) (n : ℕ) (s : State)
      → Post (λ t. IsClosed) Any (run_send closed (restarted_from_block n) s)
  Post-restart true n s = tt
  Post-restart false n s = last_after-restarted [] s.sent n

  run_if_connected-IsClosed :
      (r : Resume) (connected : Bool)
      → Triple IsClosed (run_if_connected abi env deployers r connected) (λ next. IsClosed) Any
  unfolding send
  run_if_connected-IsClosed r false = Triple-pure r (λ s c. c)
  run_if_connected-IsClosed r true =
      Triple-bind {Q = λ result. Any} _ _
        (Triple-attempt {Q = λ a. Any} {R = Any} (λ a s u. tt) (λ e s u. tt) (λ s u. tt)
          (Triple-imp (λ s c. tt) (λ a s u. u) (λ s u. u) (Triple-any _)))
        (λ result.
          Triple-bind {Q = λ t. IsClosed} _ _
            record { at = λ s u. Post-restart (env.closed s.calls) _ s }
            (λ t. Triple-pure (resume r result) (λ s c. c)))

  rounds-IsClosed :
      (n : ℕ) (r : Resume) → Triple IsClosed (rounds abi env deployers n r) (λ next. IsClosed) Any
  unfolding rounds call
  rounds-IsClosed zero r = Triple-pure r (λ s c. c)
  rounds-IsClosed (suc n) r =
      Triple-bind {Q = λ c. IsClosed} _ _ record { at = λ s c. c }
        (λ connected.
          Triple-bind _ _ (run_if_connected-IsClosed r connected) (λ next. rounds-IsClosed n next))

same_fields :
    (h b token amount : ℕ) (w : WithdrawalEvent)
    → record { tx_hash = h; block_number = b; token = token; amount = amount } ≡ w
    → (some h ≡ some w.tx_hash) × (some b ≡ some w.block_number)
same_fields h b token amount w e = (ap (λ v. some v.tx_hash) e, ap (λ v. some v.block_number) e)

event_of-fields :
    (tx_hash block_number : Option ℕ) (token : ℕ) (event : Option L2Events) (w : WithdrawalEvent)
    → event_of tx_hash block_number token event ≡ some w
    → (tx_hash ≡ some w.tx_hash) × (block_number ≡ some w.block_number)
event_of-fields none block_number token event w e = cc
event_of-fields (some h) none token event w e = cc
event_of-fields (some h) (some b) token none w e = cc
event_of-fields (some h) (some b) token (some contract_deployed) w e = cc
event_of-fields (some h) (some b) token (some (bridge_burn amount)) w e =
    same_fields h b token amount w cc
event_of-fields (some h) (some b) token (some (withdrawn amount)) w e =
    same_fields h b token amount w cc

-- The transaction of a log is in the block of the log.
abbrev pub IsInBlock : (ℕ → ℕ) → EthLog → Type 0
IsInBlock block_of log =
    (tx_hash block_number : ℕ)
    → log.transaction_hash ≡ some tx_hash
    → log.block_number ≡ some block_number
    → block_number ≡ block_of tx_hash

module _ (abi : Abi) (env : Env) (OnChain : EthLog → Type 0) (block_of : ℕ → ℕ) (known : List ℕ)
    (in_block : (log : EthLog) → OnChain log → IsInBlock block_of log) where
  sound-InBlocks : (sent : List L2Event) → All (ComesFrom abi OnChain) sent → InBlocks block_of sent
  sound-InBlocks [] a = tt
  sound-InBlocks (withdrawal w ∷ es) a = (
    ∥∥₁_elim a.0 (ℕ_set _ _) (λ found.
        let fields =
          event_of-fields found.0.transaction_hash found.0.block_number found.0.address _ w
            found.2 in
        in_block found.0 found.1 w.tx_hash w.block_number fields.0 fields.1),
    sound-InBlocks es a.1,
  )
  sound-InBlocks (l2_token_init_event token ∷ es) a = sound-InBlocks es a.1
  sound-InBlocks (restarted_from_block n ∷ es) a = sound-InBlocks es a.1

-- After `++`, an empty end.
front-empty : (front waiting : List WithdrawalEvent) → [] ≡ front ++ waiting → waiting ≡ []
front-empty [] waiting e = sym e
front-empty (w ∷ front) waiting e = cc

all_stored :
    (sent : List L2Event) (now start : List StoredWithdrawal) (waiting front : List WithdrawalEvent)
    → last_after [] sent ≡ []
    → last_after [] sent ≡ front ++ waiting
    → now ++ stored_withdrawals waiting ≡ start ++ numbered sent
    → now ≡ start ++ numbered sent
unfolding stored_withdrawals enumerate_groups group_by_tx
all_stored sent now start waiting front closed last e =
    sym (append-nil now)
    ∙ ap (λ ws. now ++ stored_withdrawals ws) (sym (front-empty front waiting (sym closed ∙ last)))
    ∙ e

-- If the streams of the node have no gaps, and the transaction of each log of the chain is in the
-- log's block, then after any number of rounds of the listener on L2, begun at block `first`, all
-- that it has sent of withdrawals comes from logs of the chain, and the loop of the watcher over what
-- was sent, if it ends without an error, has stored exactly the numbered withdrawals that were sent,
-- and among them each withdrawal that a known token logged in a block from `first` to before the one
-- at which the next round would begin: reconnecting, changes of the pagination, errors and restarts
-- lose none. If it ends otherwise, it has stored the first of them.
pub run_with_reconnects-stored :
    (abi : Abi) (env : Env) (OnChain : EthLog → Type 0) (block_of : ℕ → ℕ) (known : List ℕ)
    (first : ℕ)
    → ((log : EthLog) → OnChain log → IsInBlock block_of log)
    → StreamsAreGapless abi env OnChain known first
    → (deployers : List ℕ) (n last_token calls : ℕ) (next : Resume) (u : State)
    → run_with_reconnects abi env deployers n first last_token
        record { calls = calls; tokens = known; sent = [] }
      ≡ (ok next, u)
    → (log : EthLog) (w : WithdrawalEvent) (b : ℕ) → OnChain log
    → Mem log.address known
    → withdrawal_in abi log ≡ some w
    → log.block_number ≡ some b
    → first ≤ b
    → b < next.from_block
    → (writes : World.Env) (meters : Bool) (from_l2_block : ℕ) (s : World.State)
    → Post
        (λ t v.
          Mem w (events (stored_of v.trace))
          × (stored_of v.trace ≡ stored_of s.trace ++ numbered u.sent)
          × All (ComesFrom abi OnChain) u.sent)
        (λ v.
          (rest : List StoredWithdrawal) × (stored_of v.trace ++ rest
            ≡ stored_of s.trace ++ numbered u.sent))
        (run_l2_events_loop writes meters from_l2_block u.sent s)
unfolding run_with_reconnects
run_with_reconnects-stored abi env OnChain block_of known first in_block gapless deployers n
      last_token calls next u ran log w b c k m e f l writes meters from_l2_block s =
    let sent =
      subst
        (λ r.
          Post
            (λ next s.
              SentBelow abi OnChain known first next.from_block s.sent
              × All (ComesFrom abi OnChain) s.sent)
            (λ s. All (ComesFrom abi OnChain) s.sent) r)
        ran
        (run_with_reconnects_complete abi env OnChain known first gapless deployers n last_token
          calls) in
    let closed =
      subst (λ r. Post (λ next. IsClosed) Any r) ran
        ((rounds-IsClosed abi env deployers n _).at _ refl) in
    let loop = run_l2_events_loop writes meters from_l2_block u.sent s in
    Post-imp loop.0 loop.1
      (λ t v h.
        let all =
          all_stored u.sent (stored_of v.trace) (stored_of s.trace) h.0 h.1 closed h.2.0 h.2.1 in
        (
          subst (λ rows. Mem w (events rows)) (sym all)
              (subst (λ ws. Mem w ws) (sym (events-append (stored_of s.trace) (numbered u.sent)))
                (mem-append_right (events (stored_of s.trace))
                  (mem-numbered w [] u.sent (sent.0 log b c k e f l w m)))),
          all,
          sent.1,
        ))
      (λ v h. h)
      (run_l2_events_loop-in_order block_of writes meters from_l2_block u.sent
        (sound-InBlocks abi env OnChain block_of known in_block u.sent sent.1) s)
