-- ===== src/Common/Results.antt =====
-- What a fallible call of the program comes to: a value, an error that `?` passes on, or a panic.
use mathlib.Core.List.{List, [], ◌∷◌}
use mathlib.Core.Option.{Option, none, some}
use mathlib.Core.Path.{◌≡◌, refl}
use mathlib.Core.Logic.{◌⊎◌, inl, inr}

pub data Outcome (E A : Type 0) : Type 0 where
  ok : A → Outcome E A
  err : E → Outcome E A
  panic : Outcome E A

infixl 5 ◌>>=◌
abbrev pub ◌>>=◌ : {E A B : Type 0} → Outcome E A → (A → Outcome E B) → Outcome E B
◌>>=◌ panic next = panic
◌>>=◌ (err e) next = err e
◌>>=◌ (ok value) next = next value

-- `expect` and `unwrap` of an option.
abbrev pub expect : {E A : Type 0} → Option A → Outcome E A
expect (some a) = ok a
expect none = panic

pub expect-ok : {E A : Type 0} (o : Option A) (a : A) → expect {E = E} o ≡ ok a → o ≡ some a
expect-ok (some b) a e = cc
expect-ok none a e = cc

abbrev pub map_err : {E F A : Type 0} → (E → F) → Outcome E A → Outcome F A
map_err f (ok a) = ok a
map_err f (err e) = err (f e)
map_err f panic = panic

-- A chain returned only if its first step did.
pub >>=-eq-ok :
    {A E B : Type 0} (step : Outcome E A) (next : A → Outcome E B) {result : B}
    → (step >>= next) ≡ ok result
    → (value : A) × (step ≡ ok value) × (next value ≡ ok result)
>>=-eq-ok panic next returned = cc
>>=-eq-ok (err e) next returned = cc
>>=-eq-ok (ok value) next returned = (value, refl, returned)

pub Outcome-cases :
    {E A : Type 0} (m : Outcome E A)
    → ((a : A) × (m ≡ ok a)) ⊎ ((e : E) × (m ≡ err e)) ⊎ (m ≡ panic)
Outcome-cases (ok a) = inl (a, refl)
Outcome-cases (err e) = inr (inl (e, refl))
Outcome-cases panic = inr (inr refl)

-- `collect` into a Result: the first error of the list, or all values.
abbrev pub collect : {E A : Type 0} → List (Outcome E A) → Outcome E (List A)
collect [] = ok []
collect (err e ∷ os) = err e
collect (panic ∷ os) = panic
collect (ok a ∷ os) = elim (collect os) [ ok rest ↦ ok (a ∷ rest) | err e ↦ err e | panic ↦ panic ]
