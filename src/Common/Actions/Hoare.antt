-- ===== src/Common/Actions/Hoare.antt =====
-- Pre- and postconditions of actions on a state, for every way they end.
use mathlib.Core.Path.{◌≡◌, refl}
use zksync_withdrawal_finali.Common.Results.{Outcome, ok, err, panic}
use zksync_withdrawal_finali.Common.Actions.{
  Stateful, continue, pure, lift, ◌>>=◌, attempt, as_value,
}

module _ {S E : Type 0} where
  abbrev pub Post : {A : Type 0} → (A → S → Type 0) → (S → Type 0) → Outcome E A × S → Type 0
  Post Q R (ok a, s) = Q a s
  Post Q R (err e, s) = R s
  Post Q R (panic, s) = R s

  -- From a state of `P`, `m` returns `a` in a state of `Q a`, or stops in a state of `R`.
  pub record Triple {A : Type 0} (P : S → Type 0) (m : Stateful S E A) (Q : A → S → Type 0)
      (R : S → Type 0) : Type 0 where
    pub at : (s : S) → P s → Post Q R (m s)

module _ {S E A B : Type 0} {Q : A → S → Type 0} {T : B → S → Type 0} {R : S → Type 0} where
  Post-continue :
      (f : A → Stateful S E B)
      → ((a : A) → Triple (Q a) (f a) T R)
      → (o : Outcome E A) (s : S) → Post Q R (o, s)
      → Post T R (continue o f s)
  Post-continue f t (ok a) s h = (t a).at s h
  Post-continue f t (err e) s h = h
  Post-continue f t panic s h = h

  pub Triple-bind :
      {P : S → Type 0} (m : Stateful S E A) (f : A → Stateful S E B)
      → Triple P m Q R
      → ((a : A) → Triple (Q a) (f a) T R)
      → Triple P (m >>= f) T R
  unfolding ◌>>=◌
  Triple-bind m f h t = record { at = λ s p. Post-continue f t (m s).0 (m s).1 (h.at s p) }

module _ {S E A : Type 0} where
  pub Post-imp :
      {Q Q' : A → S → Type 0} {R R' : S → Type 0} (o : Outcome E A) (s : S)
      → ((a : A) (u : S) → Q a u → Q' a u)
      → ((u : S) → R u → R' u)
      → Post Q R (o, s)
      → Post Q' R' (o, s)
  Post-imp (ok a) s q r h = q a s h
  Post-imp (err e) s q r h = r s h
  Post-imp panic s q r h = r s h

  pub Post-imp2 :
      {Q Q' Q'' : A → S → Type 0} {R R' R'' : S → Type 0} (r : Outcome E A × S)
      → ((a : A) (u : S) → Q a u → Q' a u → Q'' a u)
      → ((u : S) → R u → R' u → R'' u)
      → Post Q R r
      → Post Q' R' r
      → Post Q'' R'' r
  Post-imp2 (ok a, s) q r h k = q a s h k
  Post-imp2 (err e, s) q r h k = r s h k
  Post-imp2 (panic, s) q r h k = r s h k

  pub Triple-imp :
      {P P' : S → Type 0} {Q Q' : A → S → Type 0} {R R' : S → Type 0} {m : Stateful S E A}
      → ((s : S) → P' s → P s)
      → ((a : A) (s : S) → Q a s → Q' a s)
      → ((s : S) → R s → R' s)
      → Triple P m Q R
      → Triple P' m Q' R'
  Triple-imp {m = m} p q r t = record { at = λ s h. Post-imp (m s).0 (m s).1 q r (t.at s (p s h)) }

  pub Triple-pure :
      {P : S → Type 0} {Q : A → S → Type 0} {R : S → Type 0} (a : A)
      → ((s : S) → P s → Q a s)
      → Triple {E = E} P (pure a) Q R
  unfolding pure
  Triple-pure a h = record { at = h }

  Post-outcome :
      (Q : A → S → Type 0) (R : S → Type 0) (o : Outcome E A) (s : S)
      → ((a : A) → o ≡ ok a → Q a s)
      → R s
      → Post Q R (o, s)
  Post-outcome Q R (ok a) s q r = q a refl
  Post-outcome Q R (err e) s q r = r
  Post-outcome Q R panic s q r = r

  pub Triple-lift :
      {P : S → Type 0} {Q : A → S → Type 0} {R : S → Type 0} (o : Outcome E A)
      → ((a : A) (s : S) → o ≡ ok a → P s → Q a s)
      → ((s : S) → P s → R s)
      → Triple P (lift o) Q R
  unfolding lift
  Triple-lift o q r = record { at = λ s p. Post-outcome _ _ o s (λ a e. q a s e p) (r s p) }

  Post-as_value :
      (Q : A → S → Type 0) (Q' : Outcome E A → S → Type 0) (R R' : S → Type 0) (o : Outcome E A)
      (s : S)
      → ((a : A) (u : S) → Q a u → Q' (ok a) u)
      → ((e : E) (u : S) → R u → Q' (err e) u)
      → ((u : S) → R u → R' u)
      → Post Q R (o, s)
      → Post Q' R' (as_value o, s)
  Post-as_value Q Q' R R' (ok a) s q e r h = q a s h
  Post-as_value Q Q' R R' (err x) s q e r h = e x s h
  Post-as_value Q Q' R R' panic s q e r h = r s h

  Post-any : (o : Outcome E A) (s : S) → Post (λ a s. Unit {0}) (λ s. Unit {0}) (o, s)
  Post-any (ok a) s = tt
  Post-any (err e) s = tt
  Post-any panic s = tt

  pub Triple-any : (m : Stateful S E A) → Triple (λ s. Unit) m (λ a s. Unit {0}) (λ s. Unit {0})
  Triple-any m = record { at = λ s p. Post-any (m s).0 (m s).1 }

  pub Triple-attempt :
      {P : S → Type 0} {Q : A → S → Type 0} {Q' : Outcome E A → S → Type 0} {R R' : S → Type 0}
      {m : Stateful S E A}
      → ((a : A) (u : S) → Q a u → Q' (ok a) u)
      → ((e : E) (u : S) → R u → Q' (err e) u)
      → ((u : S) → R u → R' u)
      → Triple P m Q R
      → Triple P (attempt m) Q' R'
  unfolding attempt
  Triple-attempt {m = m} q e r t = record {
    at = λ s p. Post-as_value _ _ _ _ (m s).0 (m s).1 q e r (t.at s p);
  }

module _ {S A : Type 0} where
  -- The value is as `F` says.
  abbrev pub Given : (S → Type 0) → (A → Type 0) → A → S → Type 0
  Given P F a s = P s × F a

module _ {S E A B : Type 0} {P P' : S → Type 0} {F : A → Type 0} {T : B → S → Type 0}
    {R : S → Type 0} where
  pub Triple-bind_given :
      (m : Stateful S E A) (f : A → Stateful S E B)
      → Triple P m (Given P' F) R
      → ((a : A) → F a → Triple P' (f a) T R)
      → Triple P (m >>= f) T R
  Triple-bind_given m f h t =
      Triple-bind {Q = Given P' F} m f h (λ a. record { at = λ s p. (t a p.1).at s p.0 })
