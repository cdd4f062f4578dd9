-- ===== src/Accumulator/Removal.antt =====
-- finalizer/src/accumulator.rs: what `remove_unsuccessful` takes out, and what it leaves.
use mathlib.Core.List.Perm
use mathlib.Core.Option
use zksync_withdrawal_finali.Common.{
  ◌≡◌, refl, sym, ◌∙◌, Option, none, some, List, [], ◌∷◌, ◌++◌, Perm, any, arith, if◌then◌else◌,
  Option-cases, inl, inr, and_then,
}
use zksync_withdrawal_finali.Common.BTreeMap
use zksync_withdrawal_finali.Common.BTreeMap.{
  Key, IsSorted, same_key, get-remove, remove-IsSorted, remove-perm, remove-absent,
}
use zksync_withdrawal_finali.Client.{WithdrawalParams, FinalizeResult}
use zksync_withdrawal_finali.Accumulator.{
  WithdrawalsAccumulator, withdrawals, result_key, push_removed, remove_unsuccessful,
}

-- The keys that the results name; `none` if one does not fit a u64.
abbrev pub result_keys : List FinalizeResult → Option (List Key)
result_keys [] = some []
result_keys (u ∷ us) = and_then (result_key u) λ k. Option.map (λ ks. k ∷ ks) (result_keys us)

unfoldable pub remove_keys :
    List Key → WithdrawalsAccumulator → List WithdrawalParams × WithdrawalsAccumulator
unfolding push_removed BTreeMap.get BTreeMap.remove
remove_keys [] a = ([], a)
remove_keys (k ∷ ks) a =
    let r = remove_keys ks (record a { withdrawals = BTreeMap.remove k a.withdrawals }) in
    (push_removed (BTreeMap.get k a.withdrawals) r.0, r.1)

remove_unsuccessful-remove_keys :
    (us : List FinalizeResult) (a : WithdrawalsAccumulator)
    → remove_unsuccessful us a ≡ Option.map (λ ks. remove_keys ks a) (result_keys us)
unfolding remove_unsuccessful remove_keys
remove_unsuccessful-remove_keys [] a = refl
remove_unsuccessful-remove_keys (u ∷ us) a = elim (Option-cases (result_key u)) [
  | inl e ↦ rw e
  | inr (k, e) ↦
      rw
        (
          e,
          remove_unsuccessful-remove_keys us
              (record a { withdrawals = BTreeMap.remove k a.withdrawals }),
        )
        (ground (arith, Option-cases (result_keys us)))
]

-- Where it returns, it is the removal of the keys that the results name.
pub remove_unsuccessful-returns :
    (us : List FinalizeResult) (a : WithdrawalsAccumulator)
    (r : List WithdrawalParams × WithdrawalsAccumulator)
    → remove_unsuccessful us a ≡ some r
    → (ks : List Key) × (result_keys us ≡ some ks) × (remove_keys ks a ≡ r)
remove_unsuccessful-returns us a r h =
    let q : Option.map (λ ks. remove_keys ks a) (result_keys us) ≡ some r =
      sym (remove_unsuccessful-remove_keys us a) ∙ h in
    elim (Option-cases (result_keys us)) [
      | inl e ↦ let no : none ≡ some r = rw e at q in cc
      | inr (ks, e) ↦ let same : some (remove_keys ks a) ≡ some r = rw e at q in (ks, e, cc)
    ]

pub remove_keys-perm :
    (ks : List Key) (a : WithdrawalsAccumulator)
    → Perm ((remove_keys ks a).0 ++ withdrawals (remove_keys ks a).1) (withdrawals a)
unfolding remove_keys push_removed
remove_keys-perm [] a = Perm.rfl
remove_keys-perm (k ∷ ks) a =
    let left = record a { withdrawals = BTreeMap.remove k a.withdrawals } in
    elim (Option-cases (BTreeMap.get k a.withdrawals)) [
      | inl e ↦
          rw e
            (Perm.trans (remove_keys-perm ks left) (rw (remove-absent k a.withdrawals e) Perm.rfl))
      | inr (v, e) ↦
          rw e
            (Perm.trans (Perm.cons v (remove_keys-perm ks left)) (remove-perm k v a.withdrawals e))
    ]

get-remove_keys :
    (ks : List Key) (a : WithdrawalsAccumulator) (j : Key)
    → IsSorted a.withdrawals
    → BTreeMap.get j (remove_keys ks a).1.withdrawals
      ≡ (if any (λ k. same_key k j) ks then none else BTreeMap.get j a.withdrawals)
unfolding remove_keys
get-remove_keys [] a j s = refl
get-remove_keys (k ∷ ks) a j s = ground (
  arith,
  get-remove_keys ks (record a { withdrawals = BTreeMap.remove k a.withdrawals }) j
      (remove-IsSorted k a.withdrawals s),
  get-remove k j a.withdrawals s,
)

-- If every named block number and message index fits a u64, `remove_unsuccessful` does not panic;
-- what it returns and what it leaves are together the withdrawals that were held, and what it
-- leaves is, key by key, what was held under the keys that no result names.
pub remove_unsuccessful-splits :
    (us : List FinalizeResult) (ks : List Key) (a : WithdrawalsAccumulator)
    → IsSorted a.withdrawals
    → result_keys us ≡ some ks
    → (r : List WithdrawalParams × WithdrawalsAccumulator) × (remove_unsuccessful us a ≡ some r)
      × Perm (r.0 ++ withdrawals r.1) (withdrawals a)
      × ((j : Key)
          → BTreeMap.get j r.1.withdrawals
            ≡ (if any (λ k. same_key k j) ks then none else BTreeMap.get j a.withdrawals))
remove_unsuccessful-splits us ks a s e = (
  remove_keys ks a,
  rw (remove_unsuccessful-remove_keys us a, e),
  remove_keys-perm ks a,
  λ j. get-remove_keys ks a j s,
)
