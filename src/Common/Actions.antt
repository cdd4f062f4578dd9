-- ===== src/Common/Actions.antt =====
-- An async method that may fail is an action on a state; what it did before an error or a panic
-- stays done.
pub mod Hoare
use zksync_withdrawal_finali.Common.Results.{Outcome, ok, err, panic}

abbrev pub Stateful : Type 0 → Type 0 → Type 0 → Type 0
Stateful S E A = S → Outcome E A × S

abbrev pub as_value : {E A : Type 0} → Outcome E A → Outcome E (Outcome E A)
as_value (ok a) = ok (ok a)
as_value (err e) = ok (err e)
as_value panic = panic

module _ {S E : Type 0} where
  abbrev pub continue : {A B : Type 0} → Outcome E A → (A → Stateful S E B) → S → Outcome E B × S
  continue (ok a) f s = f a s
  continue (err e) f s = (err e, s)
  continue panic f s = (panic, s)

  unfoldable pub pure : {A : Type 0} → A → Stateful S E A
  pure a s = (ok a, s)

  unfoldable pub lift : {A : Type 0} → Outcome E A → Stateful S E A
  lift o s = (o, s)

  infixl 5 ◌>>◌ ◌>>=◌
  unfoldable pub ◌>>=◌ : {A B : Type 0} → Stateful S E A → (A → Stateful S E B) → Stateful S E B
  unfolding pure lift
  ◌>>=◌ m f s = let (r, s') = m s in continue r f s'

  abbrev pub ◌>>◌ : {B : Type 0} → Stateful S E (Unit {0}) → Stateful S E B → Stateful S E B
  before >> after = before >>= λ done. after

  -- The Result itself: an error is not passed on.
  unfoldable pub attempt : {A : Type 0} → Stateful S E A → Stateful S E (Outcome E A)
  attempt m s = let (r, s') = m s in (as_value r, s')
