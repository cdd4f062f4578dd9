-- ===== src/Meter/Increments.antt =====
-- withdrawals-meterer/src/lib.rs: the metrics that the meter leaves.
use mathlib.Core.List.{append_assoc, append-nil}
use zksync_withdrawal_finali.Common.{
  ℕ, ◌≡◌, refl, sym, ap, ◌∙◌, subst, Option, none, some, List, [], ◌∷◌, ◌++◌,
}
use zksync_withdrawal_finali.Common.Actions.Hoare.{
  Post, Triple, Triple-bind, Triple-pure, Triple-bind_given,
}
use zksync_withdrawal_finali.Storage.Withdrawals.{StoredWithdrawal}
use zksync_withdrawal_finali.Meter.{
  Env, State, inc_by, count, meter_amount, meter_withdrawal, meter_withdrawals,
}
use zksync_withdrawal_finali.Meter.Cache.{
  KeepsTokens, known, amount_of, increment, increments, expected, Counted, Stopped, cached-hit,
  if_missing-Counted,
}

module _ {F : Type 0} (env : Env F) (keeps : KeepsTokens env) (start : State F)
    (all : List (ℕ × F)) where
  module _ (done rest : List (ℕ × F)) (e : all ≡ done ++ rest) where
    counted :
        (address : ℕ) (o : Option F)
        → Triple
            (Counted env keeps start done)
            (count env address o)
            (λ t s. Counted env keeps start (done ++ amount_of env address o) s)
            (Stopped env keeps start all)
    unfolding inc_by
    counted address none =
        Triple-pure tt (λ s c. (c.0, c.1 ∙ ap (λ l. start.metrics ++ l) (sym (append-nil done))))
    counted address (some f) = record {
      at = λ s c. (
        record { same_tokens = c.0.same_tokens; same_known = c.0.same_known },
        ap (λ l. l ++ (address, f) ∷ []) c.1 ∙ append_assoc start.metrics done ((address, f) ∷ []),
      );
    }

    meter_amount-Counted :
        (amount : ℕ) (d : Option (ℕ × ℕ))
        → Triple
            (Counted env keeps start done)
            (meter_amount env amount d)
            (λ t s. Counted env keeps start (done ++ increment env amount d) s)
            (Stopped env keeps start all)
    meter_amount-Counted amount none =
        Triple-pure tt (λ s c. (c.0, c.1 ∙ ap (λ l. start.metrics ++ l) (sym (append-nil done))))
    meter_amount-Counted amount (some d) = counted d.1 (env.format amount d.0)

    meter_withdrawal-Counted :
        (w : StoredWithdrawal)
        → Triple
            (Counted env keeps start done)
            (meter_withdrawal env w)
            (λ t s.
              Counted env keeps start
                (done ++ increment env w.event.amount (expected env keeps start w.event.token))
                s)
            (Stopped env keeps start all)
    unfolding meter_withdrawal
    meter_withdrawal-Counted w =
        Triple-bind _ _ (cached-hit env keeps start all done rest e w.event.token) (λ hit.
          Triple-bind_given _ _
            (if_missing-Counted env keeps start all done rest e w.event.token hit)
            (λ d f.
              subst
                (λ o.
                  Triple (Counted env keeps start done) (meter_amount env w.event.amount d)
                    (λ t s. Counted env keeps start (done ++ increment env w.event.amount o) s)
                    (Stopped env keeps start all))
                f (meter_amount-Counted w.event.amount d)))

  meter_withdrawals-Counted :
      (done : List (ℕ × F)) (ws : List StoredWithdrawal)
      → all ≡ done ++ increments env (expected env keeps start) ws
      → Triple
          (Counted env keeps start done)
          (meter_withdrawals env ws)
          (λ t s. s.metrics ≡ start.metrics ++ all)
          (Stopped env keeps start all)
  unfolding meter_withdrawals
  meter_withdrawals-Counted done [] e =
      Triple-pure tt (λ s c. c.1 ∙ ap (λ l. start.metrics ++ l) (sym (e ∙ append-nil done)))
  meter_withdrawals-Counted done (w ∷ ws) e =
      Triple-bind _ _
        (meter_withdrawal-Counted done (increments env (expected env keeps start) (w ∷ ws)) e w)
        (λ t.
          meter_withdrawals-Counted
            (done ++ increment env w.event.amount (expected env keeps start w.event.token)) ws
            (e
              ∙ sym (
                  append_assoc done
                    (increment env w.event.amount (expected env keeps start w.event.token))
                    (increments env (expected env keeps start) ws))))

-- If no other task writes the tokens meanwhile, `meter_withdrawals` adds to the metrics, in order,
-- what each withdrawal amounts to by what is known of its token, from the cache at the start or else
-- from the table, and nothing for an unknown token or an amount that cannot be formatted; if a query
-- fails, it has added the beginning of that. The entries cached on the way change nothing.
pub meter_withdrawals-increments :
    {F : Type 0} (env : Env F)
    → KeepsTokens env
    → (start : State F) (ws : List StoredWithdrawal)
    → Post
        (λ t u. u.metrics ≡ start.metrics ++ increments env (known env start.tokens start.db) ws)
        (λ u.
          (done rest : List (ℕ × F)) × ((increments env (known env start.tokens start.db) ws
              ≡ done ++ rest)
            × (u.metrics ≡ start.metrics ++ done)))
        (meter_withdrawals env ws start)
meter_withdrawals-increments env keeps start ws =
    (meter_withdrawals-Counted env keeps start (increments env (known env start.tokens start.db) ws)
        [] ws refl).at
      start
      (record { same_tokens = refl; same_known = λ token. refl }, sym (append-nil start.metrics))
