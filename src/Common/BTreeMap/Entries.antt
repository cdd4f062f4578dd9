-- ===== src/Common/BTreeMap/Entries.antt =====
-- Predicates of all entries of a map, through `insert` and `remove`.
use mathlib.Core.Path.{◌≡◌}
use mathlib.Core.Bool.{true, false}
use mathlib.Core.Logic.{inl, inr}
use mathlib.Core.List.{List, [], ◌∷◌}
use native.Mathlib.Omega.{arith}
use zksync_withdrawal_finali.Common.Lists.{All}
use zksync_withdrawal_finali.Common.Tests.{Bool-cases}
use zksync_withdrawal_finali.Common.BTreeMap.{
  Key, same_key, insert, remove, Chain, Chain-weaken, Chain-IsSorted, IsSorted,
}

module _ {ℓ κ} {V : Type ℓ} (P : Key × V → Type κ) where
  pub All-insert :
      (k : Key) (v : V) (m : List (Key × V)) → P (k, v) → All P m → All P (insert k v m)
  unfolding insert
  All-insert k v [] p h = (p, tt)
  All-insert k v ((j, w) ∷ m) p h = let rest = All-insert k v m p h.1 in ground arith

  pub All-remove : (k : Key) (m : List (Key × V)) → All P m → All P (remove k m)
  unfolding remove
  All-remove k [] h = tt
  All-remove k ((j, w) ∷ m) h = elim (Bool-cases (same_key j k)) [
    | inl e ↦ rw e h.1
    | inr e ↦ rw e (h.0, All-remove k m h.1)
  ]

module _ {ℓ} {V : Type ℓ} where
  above-other :
      (j k : Key) (m : List (Key × V))
      → Chain j m
      → same_key j k ≡ true
      → All (λ e. same_key e.0 k ≡ false) m
  above-other j k [] c e = tt
  above-other j k ((i, w) ∷ m) c e =
      (ground arith, above-other j k m (Chain-weaken j i m c.0 c.1) e)

  pub remove-others :
      (k : Key) (m : List (Key × V)) → IsSorted m → All (λ e. same_key e.0 k ≡ false) (remove k m)
  unfolding remove
  remove-others k [] s = tt
  remove-others k ((j, w) ∷ m) s = elim (Bool-cases (same_key j k)) [
    | inl e ↦ rw e (above-other j k m s e)
    | inr e ↦ rw e (e, remove-others k m (Chain-IsSorted j m s))
  ]
