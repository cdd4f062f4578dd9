-- ===== src/Finalizer/Tables/Keeping.antt =====
-- finalizer/src/lib.rs: the steps of the loop keep the tables reached, and what they return is an
-- answer from outside.
use zksync_withdrawal_finali.Common.{
  ℕ, suc, ◌≡◌, refl, Bool, true, false, List, Outcome, ok, err, panic, if◌then◌else◌,
}
use zksync_withdrawal_finali.Common.Actions.Hoare.{
  Post, Triple, Triple-pure, Triple-lift, Triple-bind_given, Given,
}
use zksync_withdrawal_finali.Client.{WithdrawalKey}
use zksync_withdrawal_finali.Storage.Tables.{Db}
use zksync_withdrawal_finali.Finalizer.World.{Config, Env, State, Action, Error}
use zksync_withdrawal_finali.Finalizer.Monad.{
  M, pure, lift, ◌>>=◌, act, call, statement, run_statement,
}
use zksync_withdrawal_finali.Finalizer.Batch.{record_finalized, record_failed}
use zksync_withdrawal_finali.Finalizer.Tables
use zksync_withdrawal_finali.Finalizer.Tables.{Reaches, MayFinalize, MayFail}

abbrev pub Any : {A : Type 0} → A → Type 0
Any a = Unit

module _ (config : Config) (env : Env) (start : Db) where
  abbrev pub Reached : State → Type 0
  Reached s = Reaches config env start s.db

  -- From reached tables `m` leads to reached tables, and what it returns is as `F` says.
  abbrev pub Keeps : {A : Type 0} → M A → (A → Type 0) → Type 0
  Keeps m F = Triple Reached m (Given Reached F) Reached

  module _ {A : Type 0} {F : A → Type 0} where
    pub Keeps-bind :
        {B : Type 0} {G : B → Type 0} (m : M A) (f : A → M B)
        → Keeps m F
        → ((a : A) → F a → Keeps (f a) G)
        → Keeps (m >>= f) G
    Keeps-bind m f h t = Triple-bind_given {P' = Reached} {F = F} m f h t

    pub Keeps-pure : (a : A) → F a → Keeps (pure a) F
    Keeps-pure a f = Triple-pure a (λ s p. (p, f))

    pub Keeps-lift : (o : Outcome Error A) → ((a : A) → o ≡ ok a → F a) → Keeps (lift o) F
    Keeps-lift o f = Triple-lift o (λ a s e p. (p, f a e)) (λ s p. p)

    pub Keeps-if :
        (b : Bool) (m n : M A)
        → (b ≡ true → Keeps m F)
        → (b ≡ false → Keeps n F)
        → Keeps (if b then m else n) F
    Keeps-if true m n hm hn = hm refl
    Keeps-if false m n hm hn = hn refl

    Post-answer :
        (o : Outcome Error A) (s : State)
        → Reached s
        → ((a : A) → o ≡ ok a → F a)
        → Post (Given Reached F) Reached (o, s)
    Post-answer (ok a) s p f = (p, f a refl)
    Post-answer (err e) s p f = p
    Post-answer panic s p f = p

    pub Keeps-call :
        (answer : ℕ → Outcome Error A)
        → ((n : ℕ) (a : A) → answer n ≡ ok a → F a)
        → Keeps (call answer) F
    unfolding call
    Keeps-call answer f = record {
      at = λ s p. Post-answer (answer s.calls) (record s { calls = suc s.calls }) p (f s.calls);
    }

  pub Keeps-act : (a : Action) → Keeps (act a) Any
  unfolding act
  Keeps-act a = record { at = λ s p. (p, tt) }

  module _ {A : Type 0} where
    Post-run :
        (b : Bool) (seen : Db) (a : A) (db : Db) (s : State)
        → Reaches config env start seen
        → Reaches config env start db
        → Post (Given Reached Any) Reached (run_statement b seen a db s)
    Post-run true seen a db s p q = p
    Post-run false seen a db s p q = (q, tt)

    pub Keeps-statement :
        (body : ℕ → Db → A × Db)
        → ((n : ℕ) (db : Db)
            → Reaches config env start db
            → Reaches config env start (body (env.now n) db).1)
        → Keeps (statement env body) Any
    unfolding statement
    Keeps-statement body h = record {
      at = λ s p.
          let seen = env.others s.calls s.db in
          let p' : Reaches config env start seen = Tables.others_act s.calls p in
          Post-run (env.connection_fails s.calls) seen (body (env.now s.calls) seen).0
            (body (env.now s.calls) seen).1 s p' (h s.calls seen p');
    }

  pub Keeps-record_finalized :
      (keys : List WithdrawalKey) (tx : ℕ)
      → MayFinalize config env keys tx
      → Keeps (record_finalized env keys tx) Any
  Keeps-record_finalized keys tx h =
      Keeps-bind {F = Any} _ _ (Keeps-statement _ (λ n db p. Tables.finalized keys tx h p))
        (λ r t. Keeps-act _)

  pub Keeps-record_failed :
      (keys : List WithdrawalKey) → MayFail config env keys → Keeps (record_failed env keys) Any
  Keeps-record_failed keys h =
      Keeps-bind {F = Any} _ _ (Keeps-statement _ (λ n db p. Tables.failed keys n h p))
        (λ r t. Keeps-act _)
