-- ===== src/Common/BTreeMap.antt =====
-- Rust's `BTreeMap` with keys `(u64, u64)`, as the list of its entries in the order of the keys.
pub mod Entries
use mathlib.Core.List.Perm
use zksync_withdrawal_finali.Common.Tests.{◌==◌, if◌then◌else◌, Bool-cases}
use zksync_withdrawal_finali.Common.Lists.{length}
use Prim.Native.Nat.{ℕ, ◌+◌, ◌≤◌, ◌<◌, compare, Ordering}
use mathlib.Core.Path.{◌≡◌, refl}
use mathlib.Core.Logic.{◌⊎◌, inl, inr}
use mathlib.Core.Bool.{Bool, true, ◌&&◌}
use mathlib.Core.Option.{Option, none, some}
use mathlib.Core.List.{List, [], ◌∷◌, map, Perm}
use native.Mathlib.Omega.{arith}

abbrev pub Key : Type 0
Key = ℕ × ℕ

abbrev pub compare_keys : Key → Key → Ordering
compare_keys k j = elim (compare k.0 j.0) [
  | Ordering.lt ↦ Ordering.lt
  | Ordering.gt ↦ Ordering.gt
  | Ordering.eq ↦ compare k.1 j.1
]

abbrev pub same_key : Key → Key → Bool
same_key k j = k.0 == j.0 && k.1 == j.1

module _ {ℓ} {V : Type ℓ} where
  unfoldable pub get : Key → List (Key × V) → Option V
  get k [] = none
  get k ((j, w) ∷ m) = if same_key j k then some w else get k m

  -- An entry with the key is replaced.
  unfoldable pub insert : Key → V → List (Key × V) → List (Key × V)
  insert k v [] = (k, v) ∷ []
  insert k v ((j, w) ∷ m) =
      let rest = insert k v m in
      elim (compare_keys k j) [
        | Ordering.lt ↦ (k, v) ∷ (j, w) ∷ m
        | Ordering.eq ↦ (k, v) ∷ m
        | Ordering.gt ↦ (j, w) ∷ rest
      ]

  -- The map without the key; what it held is `get`.
  unfoldable pub remove : Key → List (Key × V) → List (Key × V)
  remove k [] = []
  remove k ((j, w) ∷ m) = let rest = remove k m in if same_key j k then m else (j, w) ∷ rest

  abbrev pub values : List (Key × V) → List V
  values = map (λ e. e.1)

abbrev pub Less : Key → Key → Type 0
Less k j = (k.0 < j.0) ⊎ ((k.0 ≡ j.0) × (k.1 < j.1))

module _ {ℓ} {V : Type ℓ} where
  abbrev pub Chain : Key → List (Key × V) → Type 0
  Chain k [] = Unit
  Chain k ((j, w) ∷ m) = Less k j × Chain j m

  -- The keys rise strictly.
  abbrev pub IsSorted : List (Key × V) → Type 0
  IsSorted [] = Unit
  IsSorted ((k, v) ∷ m) = Chain k m

  Chain-insert :
      (i k : Key) (v : V) (m : List (Key × V)) → Less i k → Chain i m → Chain i (insert k v m)
  unfolding insert
  Chain-insert i k v [] l c = (l, tt)
  Chain-insert i k v ((j, w) ∷ m) l c = ground (arith, Chain-insert j k v m)

  pub insert-IsSorted :
      (k : Key) (v : V) (m : List (Key × V)) → IsSorted m → IsSorted (insert k v m)
  unfolding insert
  insert-IsSorted k v [] s = tt
  insert-IsSorted k v ((j, w) ∷ m) s = ground (arith, Chain-insert j k v m)

  -- A key that is not above the chain's lower end is absent.
  get-Chain :
      (i k : Key) (m : List (Key × V))
      → Chain i m
      → Less k i ⊎ (same_key k i ≡ true)
      → get k m ≡ none
  unfolding get
  get-Chain i k [] c h = refl
  get-Chain i k ((j, w) ∷ m) c h = ground (arith, get-Chain j k m)

  pub Chain-weaken : (i k : Key) (m : List (Key × V)) → Less i k → Chain k m → Chain i m
  Chain-weaken i k [] l c = tt
  Chain-weaken i k ((j, w) ∷ m) l c = ground arith

  Chain-remove : (i k : Key) (m : List (Key × V)) → Chain i m → Chain i (remove k m)
  unfolding remove
  Chain-remove i k [] c = tt
  Chain-remove i k ((j, w) ∷ m) c = ground (arith, Chain-remove j k m, Chain-weaken i j m)

  pub remove-IsSorted : (k : Key) (m : List (Key × V)) → IsSorted m → IsSorted (remove k m)
  unfolding remove
  remove-IsSorted k [] s = tt
  remove-IsSorted k ((j, w) ∷ []) s = ground arith
  remove-IsSorted k ((j, w) ∷ (i, u) ∷ m) s = ground (arith, Chain-remove j k ((i, u) ∷ m))

  pub Chain-IsSorted : (k : Key) (m : List (Key × V)) → Chain k m → IsSorted m
  Chain-IsSorted k [] c = tt
  Chain-IsSorted k ((j, w) ∷ m) c = c.1

  pub get-remove :
      (k j : Key) (m : List (Key × V))
      → IsSorted m
      → get j (remove k m) ≡ (if same_key k j then none else get j m)
  unfolding get remove
  get-remove k j [] s = ground arith
  get-remove k j ((i, w) ∷ m) s =
      ground (arith, get-remove k j m, Chain-IsSorted i m, get-Chain i j m)

  pub length-insert : (k : Key) (v : V) (m : List (Key × V)) → length (insert k v m) ≤ length m + 1
  unfolding insert
  length-insert k v [] = omega arith
  length-insert k v ((j, w) ∷ m) = ground (arith, length-insert k v m)

  pub length-remove : (k : Key) (m : List (Key × V)) → length (remove k m) ≤ length m
  unfolding remove
  length-remove k [] = omega arith
  length-remove k ((j, w) ∷ m) = ground (arith, length-remove k m)

  -- A removed value and what is left are the values before.
  pub remove-perm :
      (k : Key) (v : V) (m : List (Key × V))
      → get k m ≡ some v
      → Perm (v ∷ values (remove k m)) (values m)
  unfolding get remove
  remove-perm k v [] h = cc
  remove-perm k v ((j, w) ∷ m) h = elim (Bool-cases (same_key j k)) [
    | inl e ↦ rw e (Perm.cons' (ground arith) Perm.rfl)
    | inr e ↦ rw e (Perm.trans (Perm.swap w v _) (Perm.cons w (remove-perm k v m (ground arith))))
  ]

  pub remove-absent : (k : Key) (m : List (Key × V)) → get k m ≡ none → remove k m ≡ m
  unfolding get remove
  remove-absent k [] h = refl
  remove-absent k ((j, w) ∷ m) h = ground (arith, remove-absent k m)

  -- A new key adds its value.
  pub insert-perm :
      (k : Key) (v : V) (m : List (Key × V))
      → get k m ≡ none
      → Perm (values (insert k v m)) (v ∷ values m)
  unfolding get insert
  insert-perm k v [] h = Perm.rfl
  insert-perm k v ((j, w) ∷ m) h =
      let absent : get k m ≡ none = ground arith in
      ground (
        arith,
        Perm.refl (v ∷ w ∷ values m),
        Perm.trans (Perm.cons w (insert-perm k v m absent)) (Perm.swap v w (values m)),
      )
