-- ===== src/Finalizer/Monad.antt =====
-- finalizer/src/lib.rs: an async method that may fail is an action on the state of the loop; what
-- it did before an error or a panic stays done.
use zksync_withdrawal_finali.Common.{ℕ, suc, Bool, true, false, ◌∷◌, Outcome, ok, err, panic}
use zksync_withdrawal_finali.Common.Actions.{Stateful}
unfoldable pub use zksync_withdrawal_finali.Common.Actions.{continue, pure, lift, ◌>>=◌, ◌>>◌}
use zksync_withdrawal_finali.Storage.Tables.{Db, StorageError}
use zksync_withdrawal_finali.Finalizer.World.{State, Action, Error, Env, connection_lost, storage}

abbrev pub M : Type 0 → Type 0
M A = Stateful State Error A

unfoldable pub get_state : M State
get_state s = (ok s, s)

unfoldable pub act : Action → M (Unit {0})
act a s = (ok tt, record s { trace = a ∷ s.trace })

-- A call to the outside: the next of its answers.
unfoldable pub call : {A : Type 0} → (ℕ → Outcome Error A) → M A
call answer s = (answer s.calls, record s { calls = suc s.calls })

abbrev pub run_statement : {A : Type 0} → Bool → Db → A → Db → State → Outcome Error A × State
run_statement true seen a db s = (err connection_lost, record s { db = seen; calls = suc s.calls })
run_statement false seen a db s = (ok a, record s { db = db; calls = suc s.calls })

-- A statement, at its time and on the tables as the other tasks left them. A statement that fails
-- changes nothing.
unfoldable pub statement : {A : Type 0} → Env → (ℕ → Db → A × Db) → M A
statement env body s =
    let seen = env.others s.calls s.db in
    let (a, db) = body (env.now s.calls) seen in
    run_statement (env.connection_fails s.calls) seen a db s

abbrev pub run_fallible :
    Bool → Db → Outcome StorageError Db → State → Outcome Error (Unit {0}) × State
run_fallible true seen r s = (err connection_lost, record s { db = seen; calls = suc s.calls })
run_fallible false seen (ok db) s = (ok tt, record s { db = db; calls = suc s.calls })
run_fallible false seen (err e) s = (err (storage e), record s { db = seen; calls = suc s.calls })
run_fallible false seen panic s = (panic, record s { db = seen; calls = suc s.calls })

-- A statement that a constraint of the tables may refuse.
unfoldable pub fallible_statement : Env → (Db → Outcome StorageError Db) → M (Unit {0})
fallible_statement env body s =
    let seen = env.others s.calls s.db in
    run_fallible (env.connection_fails s.calls) seen (body seen) s

abbrev pub forget : Outcome Error (Unit {0}) → Outcome Error (Unit {0})
forget (ok done) = ok done
forget (err e) = ok tt
forget panic = panic

-- `.ok()` on a result that is not used.
unfoldable pub ignore_error : M (Unit {0}) → M (Unit {0})
ignore_error m s = let (r, s') = m s in (forget r, s')
