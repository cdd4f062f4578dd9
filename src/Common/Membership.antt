-- ===== src/Common/Membership.antt =====
-- Membership through filters, prefixes and Boolean searches.
use mathlib.Core.Logic.{∥∥₁_elim, ∥∥₁_map, ∥∥₁_prop}
use mathlib.Core.Logic.Or
use mathlib.Core.HLevel.{×_prop}
use native.Mathlib.Nat.{ℕ_set}
use mathlib.Core.Path.{ap, ◌∙◌, refl, ◌≡◌, refl, sym, subst}
use mathlib.Core.Bool.{Bool, true}
use mathlib.Core.List.{
  Perm, Permᴰ, List, [], ◌∷◌, Mem, mem-cons, mem-cons_self, mem-cons_of_mem, not-mem-nil,
}
use native.Mathlib.Omega.{arith}
use Prim.Native.Nat.{ℕ, zero, suc}
use zksync_withdrawal_finali.Common.Lists.{any, filter, take, contains, length}
use zksync_withdrawal_finali.Common.Tests.{Bool-cases, ◌==◌, ==_iff}
use mathlib.Core.Logic.{inl, inr}

pub Bool-set : IsSet Bool
Bool-set = hlevel

module _ {ℓ} {A : Type ℓ} where
  pub any_of_mem : (p : A → Bool) {x : A} (xs : List A) → Mem x xs → p x ≡ true → any p xs ≡ true
  any_of_mem p [] m h = absurd (not-mem-nil m)
  any_of_mem p {x} (y ∷ ys) m h =
      Or.elim (Bool-set _ _) (mem-cons.0 m)
        (λ e. let here : p y ≡ true = subst (λ z. p z ≡ true) e h in ground arith)
        (λ later. let rest = any_of_mem p ys later h in ground arith)

  pub any-mem :
      (p : A → Bool) (xs : List A) → any p xs ≡ true → ∥ ((x : A) × Mem x xs × (p x ≡ true)) ∥₁
  any-mem p [] h = cc
  any-mem p (y ∷ ys) h = elim (Bool-cases (p y)) [
    | inl e ↦ ∣ (y, mem-cons_self, e) ∣₁
    | inr e ↦ ∥∥₁_map (any-mem p ys (rw e at h)) (λ w. (w.0, mem-cons_of_mem y w.1, w.2))
  ]

  pub mem-filter :
      (p : A → Bool) {x : A} (xs : List A) → Mem x (filter p xs) → Mem x xs × (p x ≡ true)
  mem-filter p [] m = absurd (not-mem-nil m)
  mem-filter p {x} (y ∷ ys) m = elim (Bool-cases (p y)) [
    | inl e ↦
        Or.elim (×_prop ∥∥₁_prop (Bool-set _ _)) (mem-cons.0 (rw e at m))
          (λ q. (mem-cons.1 (Or.inl q), subst (λ z. p z ≡ true) (sym q) e))
          (λ later. let r = mem-filter p ys later in (mem-cons_of_mem y r.0, r.1))
    | inr e ↦ let r = mem-filter p ys (rw e at m) in (mem-cons_of_mem y r.0, r.1)
  ]

  pub filter-mem :
      (p : A → Bool) {x : A} (xs : List A) → Mem x xs → p x ≡ true → Mem x (filter p xs)
  filter-mem p [] m h = absurd (not-mem-nil m)
  filter-mem p {x} (y ∷ ys) m h =
      Or.elim ∥∥₁_prop (mem-cons.0 m)
        (λ e.
          let here : p y ≡ true = subst (λ z. p z ≡ true) e h in rw here (mem-cons.1 (Or.inl e)))
        (λ later.
          let rest = filter-mem p ys later h in
          elim (Bool-cases (p y)) [ inl e ↦ rw e (mem-cons_of_mem y rest) | inr e ↦ rw e rest ])

  pub mem-take : (n : ℕ) {x : A} (xs : List A) → Mem x (take n xs) → Mem x xs
  mem-take zero xs m = absurd (not-mem-nil m)
  mem-take (suc n) [] m = absurd (not-mem-nil m)
  mem-take (suc n) {x} (y ∷ ys) m =
      Or.elim ∥∥₁_prop (mem-cons.0 m) (λ e. mem-cons.1 (Or.inl e))
        (λ later. mem-cons_of_mem y (mem-take n ys later))

pub contains-mem : (a : ℕ) (xs : List ℕ) → contains a xs ≡ true → Mem a xs
contains-mem a xs h =
    ∥∥₁_elim (any-mem (λ x. x == a) xs h) ∥∥₁_prop
      λ found. subst (λ z. Mem z xs) ((==_iff found.0 a).0 found.2) found.1

pub mem-contains : (a : ℕ) (xs : List ℕ) → Mem a xs → contains a xs ≡ true
mem-contains a xs m = any_of_mem (λ x. x == a) xs m ((==_iff a a).1 refl)

module _ {ℓ} {A : Type ℓ} where
  length-permᴰ : {xs ys : List A} → Permᴰ xs ys → length xs ≡ length ys
  length-permᴰ Permᴰ.nil = refl
  length-permᴰ (Permᴰ.cons e p) = ap suc (length-permᴰ p)
  length-permᴰ (Permᴰ.swap {l = l} e e') = refl
  length-permᴰ (Permᴰ.trans p q) = length-permᴰ p ∙ length-permᴰ q

  pub length-perm : {xs ys : List A} → Perm xs ys → length xs ≡ length ys
  length-perm p = ∥∥₁_elim p (ℕ_set _ _) length-permᴰ
