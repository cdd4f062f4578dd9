-- ===== src/Finalizer/Loop.antt =====
-- finalizer/src/lib.rs: `loop_iteration` and `process_unsuccessful`.
use zksync_withdrawal_finali.Common.{
  ℕ, zero, suc, Bool, true, false, ◌&&◌, ◌||◌, Option, none, some, List, [], ◌∷◌, ◌++◌, map, filter,
  not, any, ◌==◌, if◌then◌else◌, Outcome, ok, err, panic, expect, collect,
}
use zksync_withdrawal_finali.Client.{WithdrawalKey, WithdrawalParams, FinalizeResult, key, is_eth}
use zksync_withdrawal_finali.Accumulator
use zksync_withdrawal_finali.Accumulator.{
  WithdrawalsAccumulator, withdrawals, take_withdrawals, add_withdrawal, remove_unsuccessful,
  ready_to_finalize,
}
use zksync_withdrawal_finali.Storage.Selection.{
  withdrawals_to_finalize, withdrawals_to_finalize_with_whitelist,
  withdrawals_to_finalize_with_blacklist,
}
use zksync_withdrawal_finali.Finalizer.World.{
  Config, Env, Error, TokenList, all, nothing, black_list, white_list, checked, slept,
  query_db_pagination_limit, no_new_withdrawals_backoff, loop_iteration_error_backoff,
}
use zksync_withdrawal_finali.Finalizer.Monad.{M, pure, lift, ◌>>=◌, ◌>>◌, act, call, statement}
use zksync_withdrawal_finali.Finalizer.Batch.{
  predict_fails, finalize_batch, record_finalized, record_failed,
}

abbrev pub is_empty {ℓ} : {A : Type ℓ} → List A → Bool
is_empty [] = true
is_empty (x ∷ xs) = false

-- `self.unsuccessful.append(&mut removed)`
unfoldable pub append_unsuccessful : List WithdrawalParams → M (Unit {0})
append_unsuccessful removed s = (ok tt, record s { unsuccessful = s.unsuccessful ++ removed })

-- `std::mem::take(&mut self.unsuccessful)`
unfoldable pub take_unsuccessful : M (List WithdrawalParams)
take_unsuccessful s = (ok s.unsuccessful, record s { unsuccessful = [] })

abbrev pub same_key : WithdrawalKey → WithdrawalKey → Bool
same_key a b = a.tx_hash == b.tx_hash && a.event_index_in_tx == b.event_index_in_tx

abbrev pub has_key : List WithdrawalKey → WithdrawalKey → Bool
has_key keys k = any (λ j. same_key j k) keys

abbrev pub finalized_keys : List WithdrawalParams → List Bool → List WithdrawalKey
finalized_keys (wd ∷ wds) (b ∷ bs) =
    let rest = finalized_keys wds bs in if b then key wd ∷ rest else rest
finalized_keys [] bs = []
finalized_keys (wd ∷ wds) [] = []

module _ (env : Env) where
  -- What the contract on L1 answers to whether the withdrawal is finalized.
  unfoldable pub is_finalized : WithdrawalParams → M (Outcome Error Bool)
  is_finalized wd =
      if is_eth wd.sender
      then call (λ n. ok (env.is_eth_withdrawal_finalized n wd.l1_batch_number wd.l2_message_index))
      else call (λ n. ok (env.is_withdrawal_finalized n wd.l1_batch_number wd.l2_message_index))

  -- Every call is made, whatever the others answer.
  unfoldable pub join_all : List WithdrawalParams → M (List (Outcome Error Bool))
  join_all [] = pure []
  join_all (wd ∷ wds) = do answer ← is_finalized wd; answers ← join_all wds; pure (answer ∷ answers)

  unfoldable pub get_finalized_withdrawals : List WithdrawalParams → M (List WithdrawalKey)
  get_finalized_withdrawals withdrawals = do
    answers ← join_all withdrawals
    results ← lift (collect answers)
    pure (finalized_keys withdrawals results)

module _ (config : Config) (env : Env) where
  unfoldable pub new_accumulator : M WithdrawalsAccumulator
  new_accumulator = do
    gas_price ← call env.get_gas_price
    pure (
        Accumulator.new gas_price config.tx_fee_limit config.batch_finalization_gas_limit
          config.one_withdrawal_gas_limit)

  unfoldable pub process_taken : List WithdrawalParams → M (Unit {0})
  process_taken predicted = do
    are_finalized ← get_finalized_withdrawals env predicted
    act (checked are_finalized)
    let keys = map key predicted
    record_failed env (filter (λ k. not (has_key are_finalized k)) keys)
    record_finalized env (filter (has_key are_finalized) keys) 0

  unfoldable pub process_unsuccessful : M (Unit {0})
  unfolding process_taken take_unsuccessful
  process_unsuccessful = do
    predicted ← take_unsuccessful
    if is_empty predicted then pure tt else process_taken predicted

  abbrev pub ready : WithdrawalsAccumulator → M Bool
  ready acc = lift (expect (ready_to_finalize acc))

  abbrev pub drop_predicted :
      WithdrawalsAccumulator → List FinalizeResult → M WithdrawalsAccumulator
  drop_predicted acc predicted_to_fail = if is_empty predicted_to_fail then pure acc else do
    (removed, kept) ← lift (expect (remove_unsuccessful predicted_to_fail acc))
    append_unsuccessful removed
    pure kept

  -- Predict the batch, and move what would fail to `unsuccessful`.
  unfoldable pub drop_failing : WithdrawalsAccumulator → M WithdrawalsAccumulator
  drop_failing acc = do
    predicted_to_fail ← predict_fails config env (withdrawals acc)
    drop_predicted acc predicted_to_fail

  -- Finalize the batch, and begin another one.
  unfoldable pub flush : WithdrawalsAccumulator → M WithdrawalsAccumulator
  flush acc = do finalize_batch config env (take_withdrawals acc).0; new_accumulator

  -- The body of the `while let`; `is_last` is `iter.peek().is_none()`.
  unfoldable pub round : WithdrawalsAccumulator → WithdrawalParams → Bool → M WithdrawalsAccumulator
  round accumulator t is_last = do
    let added = add_withdrawal accumulator t
    full ← ready added
    kept ← (if full || is_last then drop_failing added else pure added)
    still_full ← ready kept
    if still_full || is_last then flush kept else pure kept

  unfoldable pub rounds : WithdrawalsAccumulator → List WithdrawalParams → M (Unit {0})
  rounds accumulator [] = pure tt
  rounds accumulator (t ∷ ts) = do next ← round accumulator t (is_empty ts); rounds next ts

  -- The rows to try; a `nothing` list ends the iteration before.
  unfoldable pub try_finalize_these : TokenList → M (Option (List WithdrawalParams))
  try_finalize_these all = do
    found ← statement env (λ now db. (
      withdrawals_to_finalize env.scan db now query_db_pagination_limit config.eth_threshold,
      db,
    ))
    pure (some found)
  try_finalize_these (white_list w) = do
    found ← statement env (λ now db. (
      withdrawals_to_finalize_with_whitelist env.scan db query_db_pagination_limit w
          config.eth_threshold,
      db,
    ))
    pure (some found)
  try_finalize_these (black_list b) = do
    found ← statement env (λ now db. (
      withdrawals_to_finalize_with_blacklist env.scan db query_db_pagination_limit b
          config.eth_threshold,
      db,
    ))
    pure (some found)
  try_finalize_these nothing = pure none

  unfoldable pub process : List WithdrawalParams → M (Unit {0})
  process [] = act (slept no_new_withdrawals_backoff)
  process (w ∷ ws) = do
    accumulator ← new_accumulator
    rounds accumulator (w ∷ ws)
    process_unsuccessful

  abbrev pub process_found : Option (List WithdrawalParams) → M (Unit {0})
  process_found none = pure tt
  process_found (some found) = process found

  unfoldable pub loop_iteration : M (Unit {0})
  loop_iteration = do found ← try_finalize_these config.token_list; process_found found

  abbrev pub after_iteration : M (Unit {0}) → Outcome Error (Unit {0}) → M (Unit {0})
  after_iteration next (ok done) = next
  after_iteration next (err e) = act (slept loop_iteration_error_backoff) >> next
  after_iteration next panic = lift panic

  -- The first `n` iterations of the endless loop: an error only delays the next one.
  unfoldable pub finalizer_loop : ℕ → M (Unit {0})
  finalizer_loop zero s = (ok tt, s)
  finalizer_loop (suc n) s =
      let (r, s') = loop_iteration s in after_iteration (finalizer_loop n) r s'
