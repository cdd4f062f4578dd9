-- ===== src/Watcher/World.antt =====
-- watcher/src/lib.rs: what its loops meet outside (the zkSync node, the database server and the
-- other tasks), and what they do there.
use zksync_withdrawal_finali.Common.{
  ℕ, suc, Bool, true, false, List, [], ◌∷◌, ◌++◌, Option, Outcome, ok, err,
}
use zksync_withdrawal_finali.Common.Actions.{Stateful}
use zksync_withdrawal_finali.Client.Errors.{ClientError}
use zksync_withdrawal_finali.Storage.Tables.{Db}
use zksync_withdrawal_finali.Storage.Tokens.{L2TokenInitEvent}
use zksync_withdrawal_finali.Storage.Withdrawals.{StoredWithdrawal}
use zksync_withdrawal_finali.Client.Contract.{L2ToL1Event}

-- `pg_error` is an error of sqlx; none of the watcher's statements can break a constraint.
pub data Error : Type 0 where
  pg_error : Error
  client_error : ClientError → Error

-- First and last L2 block of the range, and the block on L1 of the event.
pub data BlockRangesParams : Type 0 where
  commit verify execute : ℕ → ℕ → ℕ → BlockRangesParams
  l2_to_l1_events : List L2ToL1Event → BlockRangesParams

-- What the loops do outside their own memory, for the statements about them.
pub data Action : Type 0 where
  wrote : BlockRangesParams → Action
  metered : List StoredWithdrawal → Action
  stored : List StoredWithdrawal → Action
  stored_token : L2TokenInitEvent → Action

-- The answers from outside, by the number of the call. `others` is what the other tasks did to the
-- tables before the statement; `now` is the clock in milliseconds. A range is a pair of U64.
pub record Env : Type 0 where
  pub others : ℕ → Db → Db
  pub connection_fails : ℕ → Bool
  pub now : ℕ → ℕ
  pub get_l1_batch_block_range : ℕ → ℕ → Outcome ClientError (Option (ℕ × ℕ))

-- `trace` has the first action first.
pub record State : Type 0 where
  pub db : Db
  pub calls : ℕ
  pub trace : List Action

abbrev pub M : Type 0 → Type 0
M A = Stateful State Error A

-- A call to the outside: the next of its answers.
unfoldable pub call : {A : Type 0} → (ℕ → Outcome Error A) → M A
call answer s = (answer s.calls, record s { calls = suc s.calls })

unfoldable pub act : Action → M (Unit {0})
act a s = (ok tt, record s { trace = s.trace ++ a ∷ [] })

abbrev pub run_write : Bool → Action → Db → Db → State → Outcome Error (Unit {0}) × State
run_write true a seen db s = (err pg_error, record s { db = seen; calls = suc s.calls })
run_write false a seen db s =
    (ok tt, record s { db = db; calls = suc s.calls; trace = s.trace ++ a ∷ [] })

-- A statement on the tables as the other tasks left them; if it fails it changes nothing.
unfoldable pub write : Env → Action → (Db → Db) → M (Unit {0})
write env a body s =
    let seen = env.others s.calls s.db in
    run_write (env.connection_fails s.calls) a seen (body seen) s
