-- ===== src/Finalizer/Tables/Rounds.antt =====
-- finalizer/src/lib.rs: the rounds of an iteration keep the tables reached, and send no batch that
-- may not be finalized.
use mathlib.Core.List.{Mem, Perm, mem-append, mem-cons_self, mem-cons_of_mem}
use mathlib.Core.List.Perm
use mathlib.Core.Logic.Or
use zksync_withdrawal_finali.Common.{
  ℕ, ◌≡◌, refl, ap, ◌∙◌, subst, arith, Bool, false, ◌||◌, some, List, [], ◌∷◌, ◌++◌, All, filter,
  ok, expect-ok, if◌then◌else◌, Bool-cases, or_false, inl, inr, length, length-map,
}
use zksync_withdrawal_finali.Client.{WithdrawalParams, FinalizeResult}
use zksync_withdrawal_finali.Accumulator.{
  WithdrawalsAccumulator, withdrawals, add_withdrawal, ready_to_finalize, take_withdrawals,
  remove_unsuccessful,
}
use zksync_withdrawal_finali.Accumulator.Removal.{remove_unsuccessful-returns, remove_keys-perm}
use zksync_withdrawal_finali.Accumulator.Unnamed.{IsUnnamed}
use zksync_withdrawal_finali.Accumulator.Room.{
  IsOpen, IsClosing, HasRoom-le, new-IsOpen, add_withdrawal-IsClosing, unready-IsOpen,
  remove_unsuccessful-IsClosing,
}
use zksync_withdrawal_finali.Storage.Tables.{Db}
use zksync_withdrawal_finali.Finalizer.World.{Config, Env}
use zksync_withdrawal_finali.Finalizer.Monad.{pure, ◌>>=◌}
use zksync_withdrawal_finali.Finalizer.Batch.{predict_fails, is_predicted_to_fail, requests}
use zksync_withdrawal_finali.Finalizer.Loop.{
  append_unsuccessful, drop_failing, drop_predicted, flush, round, new_accumulator, ready,
}
use zksync_withdrawal_finali.Finalizer.Tables.{IsWithin, IsReady}
use zksync_withdrawal_finali.Finalizer.Tables.Keeping.{
  Any, Keeps, Keeps-bind, Keeps-pure, Keeps-lift, Keeps-if, Keeps-call, Keeps-act,
}
use zksync_withdrawal_finali.Finalizer.Tables.Batches.{finalize_batch-Keeps}

none_named : (ws : List WithdrawalParams) → All (IsUnnamed []) ws
none_named [] = tt
none_named (w ∷ ws) = (refl, none_named ws)

All-of_mem : {A : Type 0} {P : A → Type 0} (xs : List A) → ((x : A) → Mem x xs → P x) → All P xs
All-of_mem [] f = tt
All-of_mem (x ∷ xs) f = (f x mem-cons_self, All-of_mem xs (λ y m. f y (mem-cons_of_mem x m)))

-- What is left of a batch was in it.
remove_unsuccessful-held :
    (us : List FinalizeResult) (a : WithdrawalsAccumulator)
    (r : List WithdrawalParams × WithdrawalsAccumulator)
    → remove_unsuccessful us a ≡ some r
    → All (λ w. Mem w (withdrawals a)) (withdrawals r.1)
remove_unsuccessful-held us a r h =
    let (ks, e, same) = remove_unsuccessful-returns us a r h in
    let split : Perm (r.0 ++ withdrawals r.1) (withdrawals a) =
      subst (λ x. Perm (x.0 ++ withdrawals x.1) (withdrawals a)) same (remove_keys-perm ks a) in
    All-of_mem (withdrawals r.1) (λ w m. (Perm.mem_iff split).0 (mem-append.1 (Or.inr m)))

module _ (config : Config) (env : Env) where
  abbrev one : ℕ
  one = config.one_withdrawal_gas_limit

  abbrev batch : ℕ
  batch = config.batch_finalization_gas_limit

  IsClosing-IsWithin :
      (a : WithdrawalsAccumulator) → IsClosing one batch a → IsWithin config env (withdrawals a)
  IsClosing-IsWithin a c = go (withdrawals a) (length-map _ a.withdrawals)
    where
      go : (ws : List WithdrawalParams) → length ws ≡ length a.withdrawals → IsWithin config env ws
      go [] e = tt
      go (w ∷ ws) e =
          HasRoom-le one batch (length ws) c.before.0 (omega (arith, c.before.1)) c.before.2

  -- The results of the simulated call that fail.
  abbrev Predicted : List WithdrawalParams → List FinalizeResult → Type 0
  Predicted asked failing =
      (results : List FinalizeResult) × (n : ℕ) × (env.call_finalize_withdrawals n
          (requests config asked)
        ≡ ok results)
      × (filter (is_predicted_to_fail config) results ≡ failing)

  -- An accumulator that may be flushed.
  abbrev Dropped : WithdrawalsAccumulator → Type 0
  Dropped kept = IsClosing one batch kept × IsReady config env (withdrawals kept)

  Predicted-Dropped :
      (asked : List WithdrawalParams) (failing : List FinalizeResult) (a : WithdrawalsAccumulator)
      → Predicted asked failing
      → IsClosing one batch a
      → All (λ w. Mem w asked) (withdrawals a)
      → All (IsUnnamed failing) (withdrawals a)
      → Dropped a
  Predicted-Dropped asked failing a (results, n, e, same) c held unnamed =
      (c, ((asked, results, n, e, held, rw same unnamed), IsClosing-IsWithin a c))

  abbrev pub IsOpened : WithdrawalsAccumulator → Type 0
  IsOpened = IsOpen one batch

  module _ (start : Db) where
    predict_fails-Keeps :
        (ws : List WithdrawalParams)
        → Keeps config env start (predict_fails config env ws) (Predicted ws)
    unfolding predict_fails
    predict_fails-Keeps ws =
        Keeps-bind config env start
          {F = λ results.
            (n : ℕ) × (env.call_finalize_withdrawals n (requests config ws) ≡ ok results)}
          _ _ (Keeps-call config env start _ (λ n a e. (n, e)))
          (λ results answered.
            Keeps-bind config env start {F = Any} _ _ (Keeps-act config env start _)
              (λ r t. Keeps-pure config env start _ (results, answered.0, answered.1, refl)))

    append_unsuccessful-Keeps :
        (removed : List WithdrawalParams) → Keeps config env start (append_unsuccessful removed) Any
    unfolding append_unsuccessful
    append_unsuccessful-Keeps removed = record { at = λ s p. (p, tt) }

    drop_predicted-Keeps :
        (acc : WithdrawalsAccumulator) (failing : List FinalizeResult)
        → IsClosing one batch acc
        → Predicted (withdrawals acc) failing
        → Keeps config env start (drop_predicted config env acc failing) Dropped
    drop_predicted-Keeps acc [] c p = Keeps-pure config env start acc (
        Predicted-Dropped (withdrawals acc) [] acc p c (All-of_mem (withdrawals acc) (λ w m. m))
          (none_named (withdrawals acc)))
    drop_predicted-Keeps acc (f ∷ fs) c p =
        Keeps-bind config env start {F = λ r. remove_unsuccessful (f ∷ fs) acc ≡ some r} _ _
          (Keeps-lift config env start _ (λ r e. expect-ok _ r e))
          (λ r e.
            let (closing, unnamed) = remove_unsuccessful-IsClosing one batch (f ∷ fs) acc r c e in
            Keeps-bind config env start {F = Any} _ _ (append_unsuccessful-Keeps r.0) (λ x t.
              Keeps-pure config env start r.1 (
                Predicted-Dropped (withdrawals acc) (f ∷ fs) r.1 p closing
                  (remove_unsuccessful-held (f ∷ fs) acc r e) unnamed)))

    drop_failing-Keeps :
        (acc : WithdrawalsAccumulator)
        → IsClosing one batch acc
        → Keeps config env start (drop_failing config env acc) Dropped
    unfolding drop_failing
    drop_failing-Keeps acc c =
        Keeps-bind config env start {F = Predicted (withdrawals acc)} _ _
          (predict_fails-Keeps (withdrawals acc))
          (λ failing p. drop_predicted-Keeps acc failing c p)

    pub new_accumulator-Keeps : Keeps config env start (new_accumulator config env) IsOpened
    unfolding new_accumulator
    new_accumulator-Keeps =
        Keeps-bind config env start {F = Any} _ _ (Keeps-call config env start _ (λ n a e. tt))
          (λ gas_price t.
            Keeps-pure config env start _ (new-IsOpen one batch gas_price config.tx_fee_limit))

    flush-Keeps :
        (acc : WithdrawalsAccumulator)
        → Dropped acc
        → Keeps config env start (flush config env acc) IsOpened
    unfolding flush take_withdrawals
    flush-Keeps acc d =
        Keeps-bind config env start {F = Any} _ _
          (finalize_batch-Keeps config env start (withdrawals acc) d.1)
          (λ r t. new_accumulator-Keeps)

    -- After a prediction the batch may be sent, and it need not be full for that.
    close_round :
        (kept : WithdrawalsAccumulator) (is_last : Bool)
        → Dropped kept
        → Keeps config env start
            (ready config env kept >>= λ still_full.
              if still_full || is_last then flush config env kept else pure kept)
            IsOpened
    close_round kept is_last d =
        Keeps-bind config env start {F = λ full. ready_to_finalize kept ≡ some full} _ _
          (Keeps-lift config env start _ (λ full e. expect-ok _ full e))
          (λ full e.
            Keeps-if config env start (full || is_last) _ _ (λ h. flush-Keeps kept d)
              (λ h.
                Keeps-pure config env start kept (
                  unready-IsOpen one batch kept d.0.held
                    (e ∙ ap some (or_false full is_last h).0))))

    -- Without a prediction the accumulator was not full, and nothing is sent.
    keep_round :
        (added : WithdrawalsAccumulator) (is_last full : Bool)
        → IsClosing one batch added
        → ready_to_finalize added ≡ some full
        → (full || is_last) ≡ false
        → Keeps config env start
            (ready config env added >>= λ still_full.
              if still_full || is_last then flush config env added else pure added)
            IsOpened
    keep_round added is_last full c e h =
        Keeps-bind config env start {F = λ again. ready_to_finalize added ≡ some again} _ _
          (Keeps-lift config env start _ (λ again e'. expect-ok _ again e'))
          (λ again e'.
            let same : (again || is_last) ≡ false = let q : full ≡ again = cc in rw q at h in
            Keeps-if config env start (again || is_last) _ _ (λ t. absurd (cc (t, same)))
              (λ f.
                Keeps-pure config env start added (
                  unready-IsOpen one batch added c.held (e ∙ ap some (or_false full is_last h).0))))

    pub round-Keeps :
        (acc : WithdrawalsAccumulator) (w : WithdrawalParams) (is_last : Bool)
        → IsOpened acc
        → Keeps config env start (round config env acc w is_last) IsOpened
    unfolding round
    round-Keeps acc w is_last o =
        let added = add_withdrawal acc w in
        let closing = add_withdrawal-IsClosing one batch acc w o in
        Keeps-bind config env start {F = λ full. ready_to_finalize added ≡ some full} _ _
          (Keeps-lift config env start _ (λ full e. expect-ok _ full e))
          (λ full e. elim (Bool-cases (full || is_last)) [
            | inl t ↦ rw t (
                Keeps-bind config env start {F = Dropped} _ _ (drop_failing-Keeps added closing)
                  (λ kept d. close_round kept is_last d))
            | inr f ↦ rw f (
                Keeps-bind config env start {F = λ kept. kept ≡ added} _ _
                  (Keeps-pure config env start added refl)
                  (λ kept same. rw same (keep_round added is_last full closing e f)))
          ])
