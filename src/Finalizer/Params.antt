-- ===== src/Finalizer/Params.antt =====
-- finalizer/src/lib.rs: the task that asks a zkSync node for the parameters of the finalization of
-- new withdrawals, and stores them.
pub mod Requests
use zksync_withdrawal_finali.Common.{
  ℕ, zero, suc, ◌%◌, ◌^◌, Option, none, some, List, [], ◌∷◌, map, Outcome, ok, err, panic,
  if◌then◌else◌,
}
use zksync_withdrawal_finali.Client.{WithdrawalParams}
use zksync_withdrawal_finali.Client.Errors.{ClientError, withdrawal_log_not_found}
use zksync_withdrawal_finali.Storage.Withdrawals.{
  WithdrawalWithBlock, get_withdrawals_with_no_data, set_withdrawal_unfinalizable,
}
use zksync_withdrawal_finali.Storage.Finalization.{
  add_withdrawals_data, finalization_data_set_finalized_in_tx,
}
use zksync_withdrawal_finali.Finalizer.World.{
  Env, Error, slept, fetched, no_new_withdrawals_backoff, loop_iteration_error_backoff,
}
use zksync_withdrawal_finali.Finalizer.Monad.{
  M, pure, lift, ◌>>=◌, ◌>>◌, act, call, statement, fallible_statement, ignore_error,
}
use zksync_withdrawal_finali.Finalizer.Loop.{is_empty, get_finalized_withdrawals}

-- Transaction hash, index in the transaction and id.
abbrev pub ParamsRequest : Type 0
ParamsRequest = ℕ × ℕ × ℕ

-- The `map_ok` of a request: the answer gets the id.
abbrev pub with_id :
    ℕ
    → Outcome ClientError (Option WithdrawalParams)
    → Outcome Error (Outcome ClientError WithdrawalParams)
with_id id (ok (some r)) = ok (ok (record r { id = id }))
with_id id (ok none) = panic
with_id id (err e) = ok (err e)
with_id id panic = panic

-- `p.key.event_index_in_tx as u16`
abbrev pub params_request : WithdrawalWithBlock → ParamsRequest
params_request p = (p.key.tx_hash, p.key.event_index_in_tx % 2 ^ 16, p.id)

module _ (env : Env) where
  -- Every request is made, whatever the others answer.
  unfoldable pub ask_all : List ParamsRequest → M (List (Outcome ClientError WithdrawalParams))
  ask_all [] = pure []
  ask_all ((h, i, id) ∷ rs) = do
    answer ← call (λ n. with_id id (env.finalize_withdrawal_params n h i))
    answers ← ask_all rs
    pure (answer ∷ answers)

  -- The withdrawal is set aside for good only if its log was not found.
  unfoldable pub on_failed_request : ClientError → M (Unit {0})
  on_failed_request (withdrawal_log_not_found index tx_hash) =
      ignore_error (statement env (λ now db. (tt, set_withdrawal_unfinalizable db tx_hash index)))
  on_failed_request other = pure tt

  unfoldable pub keep_results :
      List (Outcome ClientError WithdrawalParams) → M (List WithdrawalParams)
  unfolding on_failed_request
  keep_results [] = pure []
  keep_results (ok r ∷ results) = do rest ← keep_results results; pure (r ∷ rest)
  keep_results (err e ∷ results) = do on_failed_request e; keep_results results
  keep_results (panic ∷ results) = lift panic

  unfoldable pub request_finalize_params : List ParamsRequest → M (List WithdrawalParams)
  request_finalize_params hash_and_indices = do
    results ← ask_all hash_and_indices
    keep_results results

  unfoldable pub fetch_params : List WithdrawalWithBlock → M (Unit {0})
  fetch_params newly_executed_withdrawals = do
    params ← request_finalize_params (map params_request newly_executed_withdrawals)
    act (fetched params)
    already_finalized ← get_finalized_withdrawals env params
    fallible_statement env (λ db. add_withdrawals_data db params)
    statement env (λ now db. (tt, finalization_data_set_finalized_in_tx db already_finalized 0))

  unfoldable pub params_fetcher_loop_iteration : M (Unit {0})
  unfolding fetch_params
  params_fetcher_loop_iteration = do
    newly_executed_withdrawals ←
        statement env (λ now db. (get_withdrawals_with_no_data env.scan_withdrawals db 1000, db))
    if is_empty newly_executed_withdrawals
        then act (slept no_new_withdrawals_backoff)
        else fetch_params newly_executed_withdrawals

  abbrev pub after_fetch : M (Unit {0}) → Outcome Error (Unit {0}) → M (Unit {0})
  after_fetch next (ok done) = next
  after_fetch next (err e) = act (slept loop_iteration_error_backoff) >> next
  after_fetch next panic = lift panic

  -- The first `n` iterations of the endless loop.
  unfoldable pub params_fetcher_loop : ℕ → M (Unit {0})
  params_fetcher_loop zero s = (ok tt, s)
  params_fetcher_loop (suc n) s =
      let (r, s') = params_fetcher_loop_iteration s in after_fetch (params_fetcher_loop n) r s'
