-- ===== src/Watcher/Withdrawals.antt =====
-- watcher/src/lib.rs: the events of L2, collected by block and stored.
pub mod Groups
pub mod Numbering
pub mod Batching
pub mod Members
use zksync_withdrawal_finali.Common.{ℕ, ◌+◌, List, [], ◌∷◌, ◌++◌, Bool, ◌==◌, ltb, if◌then◌else◌}
use zksync_withdrawal_finali.Common.Actions.{pure, ◌>>=◌, ◌>>◌}
use zksync_withdrawal_finali.Client.{WithdrawalEvent}
use zksync_withdrawal_finali.Storage.Tokens.{L2TokenInitEvent, add_token}
use zksync_withdrawal_finali.Storage.Withdrawals.{StoredWithdrawal, add_withdrawals}
use zksync_withdrawal_finali.Watcher.World.{Env, M, metered, stored, stored_token, act, write}

-- chain-events/src/lib.rs
pub data L2Event : Type 0 where
  restarted_from_block : ℕ → L2Event
  withdrawal : WithdrawalEvent → L2Event
  l2_token_init_event : L2TokenInitEvent → L2Event

-- `group_by` of itertools on the transaction: the runs of neighbours with the same one.
unfoldable pub add_to_groups :
    WithdrawalEvent → List (List WithdrawalEvent) → List (List WithdrawalEvent)
add_to_groups e [] = (e ∷ []) ∷ []
add_to_groups e ([] ∷ groups) = (e ∷ []) ∷ groups
add_to_groups e ((f ∷ fs) ∷ groups) =
    if f.tx_hash == e.tx_hash then (e ∷ f ∷ fs) ∷ groups else (e ∷ []) ∷ (f ∷ fs) ∷ groups

unfoldable pub group_by_tx : List WithdrawalEvent → List (List WithdrawalEvent)
group_by_tx [] = []
group_by_tx (e ∷ es) = add_to_groups e (group_by_tx es)

abbrev pub enumerate : ℕ → List WithdrawalEvent → List StoredWithdrawal
enumerate index [] = []
enumerate index (e ∷ es) = record { event = e; index_in_tx = index } ∷ enumerate (index + 1) es

unfoldable pub enumerate_groups : List (List WithdrawalEvent) → List StoredWithdrawal
enumerate_groups [] = []
enumerate_groups (group ∷ groups) = enumerate 0 group ++ enumerate_groups groups

unfoldable pub stored_withdrawals : List WithdrawalEvent → List StoredWithdrawal
stored_withdrawals events = enumerate_groups (group_by_tx events)

-- `curr_l2_block_number` and `in_block_events`.
abbrev pub Pending : Type 0
Pending = ℕ × List WithdrawalEvent

-- `meters` says whether the watcher has a meter, whose own errors are only logged.
module _ (env : Env) (meters : Bool) where
  unfoldable pub process_withdrawals_in_block : List WithdrawalEvent → M (Unit {0})
  process_withdrawals_in_block events = do
    let found = stored_withdrawals events
    if meters then act (metered found) else pure tt
    write env (stored found) (λ db. add_withdrawals db found)

  abbrev pub on_higher_block : List WithdrawalEvent → WithdrawalEvent → M Pending
  on_higher_block in_block_events event = do
    process_withdrawals_in_block in_block_events
    pure (event.block_number, event ∷ [])

  -- The body of the `while let`.
  unfoldable pub on_l2_event : Pending → L2Event → M Pending
  on_l2_event (curr, in_block_events) (withdrawal event) =
      if ltb curr event.block_number
      then on_higher_block in_block_events event
      else pure (curr, in_block_events ++ event ∷ [])
  on_l2_event (curr, in_block_events) (l2_token_init_event event) = do
    write env (stored_token event) (λ db. add_token db event)
    pure (curr, in_block_events)
  on_l2_event (curr, in_block_events) (restarted_from_block block_number) = do
    process_withdrawals_in_block in_block_events
    pure (curr, [])

  unfoldable pub read_l2_events : Pending → List L2Event → M (Unit {0})
  read_l2_events pending [] = pure tt
  read_l2_events pending (event ∷ events) = do
    next ← on_l2_event pending event
    read_l2_events next events

  -- The events that the stream gives before it ends.
  unfoldable pub run_l2_events_loop : ℕ → List L2Event → M (Unit {0})
  run_l2_events_loop from_l2_block events = read_l2_events (from_l2_block, []) events
