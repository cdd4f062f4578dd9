-- ===== src/Finalizer/Tables/Iterations.antt =====
-- finalizer/src/lib.rs: the iterations of the loop change the tables only as the answers from
-- outside call for.
use zksync_withdrawal_finali.Common.{Outcome}
use zksync_withdrawal_finali.Common.Actions.Hoare.{Post, Given}
use zksync_withdrawal_finali.Finalizer.World.{Config, Env, State, Error}
use zksync_withdrawal_finali.Storage.Tables.{Db}
use zksync_withdrawal_finali.Finalizer.Tables
use zksync_withdrawal_finali.Finalizer.Tables.Keeping.{Any, Reached}

module _ (config : Config) (env : Env) (start : Db) where
  abbrev Ends : Outcome Error (Unit {0}) × State → Type 0
  Ends = Post (Given (Reached config env start) Any) (Reached config env start)
