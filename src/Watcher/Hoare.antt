-- ===== src/Watcher/Hoare.antt =====
-- watcher/src/lib.rs: what calls and statements do to the trace of a loop.
use zksync_withdrawal_finali.Common.{
  ℕ, suc, ◌≡◌, refl, Bool, true, false, List, [], ◌∷◌, ◌++◌, Outcome, ok, err, panic,
}
use zksync_withdrawal_finali.Common.Actions.Hoare.{Given, Post, Triple}
use zksync_withdrawal_finali.Storage.Tables.{Db}
use zksync_withdrawal_finali.Watcher.World.{State, Action, Error, Env, call, act, write, run_write}

module _ {A : Type 0} (P : List Action → Type 0) where
  abbrev pub Answered : (ℕ → Outcome Error A) → A → State → Type 0
  Answered answer = Given (λ s. P s.trace) (λ a. (n : ℕ) × (answer n ≡ ok a))

  Post-call :
      (answer : ℕ → Outcome Error A) (n : ℕ) (o : Outcome Error A) (s : State)
      → answer n ≡ o
      → P s.trace
      → Post (Answered answer) (λ u. P u.trace) (o, s)
  Post-call answer n (ok a) s e p = (p, (n, e))
  Post-call answer n (err x) s e p = p
  Post-call answer n panic s e p = p

  pub Triple-call :
      (answer : ℕ → Outcome Error A)
      → Triple (λ s. P s.trace) (call answer) (Answered answer) (λ s. P s.trace)
  unfolding call
  Triple-call answer = record {
    at = λ s p. Post-call answer s.calls (answer s.calls) (record s { calls = suc s.calls }) refl p;
  }

module _ (Q R : List Action → Type 0) where
  Post-write :
      (fails : Bool) (a : Action) (seen db : Db) (s : State)
      → Q (s.trace ++ a ∷ [])
      → R s.trace
      → Post (λ done u. Q u.trace) (λ u. R u.trace) (run_write fails a seen db s)
  Post-write true a seen db s q r = r
  Post-write false a seen db s q r = q

module _ (P Q R : List Action → Type 0) where
  pub Triple-act :
      (a : Action)
      → ((t : List Action) → P t → Q (t ++ a ∷ []))
      → Triple (λ s. P s.trace) (act a) (λ done s. Q s.trace) (λ s. R s.trace)
  unfolding act
  Triple-act a h = record { at = λ s p. h s.trace p }

  pub Triple-write :
      (env : Env) (a : Action) (body : Db → Db)
      → ((t : List Action) → P t → Q (t ++ a ∷ []))
      → ((t : List Action) → P t → R t)
      → Triple (λ s. P s.trace) (write env a body) (λ done s. Q s.trace) (λ s. R s.trace)
  unfolding write
  Triple-write env a body q r = record {
    at = λ s p.
        let seen = env.others s.calls s.db in
        Post-write Q R (env.connection_fails s.calls) a seen (body seen) s (q s.trace p)
          (r s.trace p);
  }
