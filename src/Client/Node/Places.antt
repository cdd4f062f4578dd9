-- ===== src/Client/Node/Places.antt =====
-- client/src/lib.rs: the place of a log among the logs from L2 to L1.
use zksync_withdrawal_finali.Common.{
  subst, ℕ, zero, suc, ◌≡◌, refl, sym, inl, inr, true, Bool-cases, ◌==◌, ==_iff, Option, none, some,
  List, [], ◌∷◌, ok,
}
use zksync_withdrawal_finali.Client.Errors.{ClientError}
use zksync_withdrawal_finali.Client.Types.{L2ToL1Log}
use zksync_withdrawal_finali.Client.Node.{ok_or, position}

-- The first log with the value.
abbrev pub IsFirstWith : ℕ → List L2ToL1Log → ℕ → Type 0
IsFirstWith value [] k = ⊥
IsFirstWith value (l ∷ ls) zero = l.value ≡ value
IsFirstWith value (l ∷ ls) (suc k) = ¬ (l.value ≡ value) × IsFirstWith value ls k

some-suc :
    (o : Option ℕ) (k : ℕ)
    → elim o [ none ↦ none | some n ↦ some (suc n) ] ≡ some k
    → (n : ℕ) × (o ≡ some n) × (k ≡ suc n)
some-suc none k e = cc
some-suc (some n) k e = (n, refl, cc)

first-zero : (k : ℕ) → some 0 ≡ some k → k ≡ 0
first-zero k e = cc

pub ok_or-ok : {A : Type 0} (x : ClientError) (o : Option A) (a : A) → ok_or x o ≡ ok a → o ≡ some a
ok_or-ok x none a e = cc
ok_or-ok x (some b) a e = cc

pub position-IsFirstWith :
    (value : ℕ) (ls : List L2ToL1Log) (k : ℕ)
    → position (λ l. l.value == value) ls ≡ some k
    → IsFirstWith value ls k
unfolding position
position-IsFirstWith value [] k e = cc
position-IsFirstWith value (l ∷ ls) k e = elim (Bool-cases (l.value == value)) [
  | inl t ↦
      let here : k ≡ 0 = first-zero k (rw t at e) in
      subst (λ n. IsFirstWith value (l ∷ ls) n) (sym here) ((==_iff l.value value).0 t)
  | inr f ↦
      let later = some-suc (position (λ l. l.value == value) ls) k (rw f at e) in
      subst (λ n. IsFirstWith value (l ∷ ls) n) (sym later.2)
        (
          λ q. let same : l.value == value ≡ true = (==_iff l.value value).1 q in cc,
          position-IsFirstWith value ls later.0 later.1,
        )
]
