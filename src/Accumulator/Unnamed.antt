-- ===== src/Accumulator/Unnamed.antt =====
-- finalizer/src/accumulator.rs: entries stay under the keys of their withdrawals, and what
-- `remove_unsuccessful` leaves is named by no result.
use zksync_withdrawal_finali.Common.{
  ◌≡◌, refl, subst, Bool, false, some, List, [], ◌∷◌, All, All-imp2, any, arith, Option-cases, inl,
  inr, ◌==◌, ◌&&◌,
}
use zksync_withdrawal_finali.Common.BTreeMap
use zksync_withdrawal_finali.Common.BTreeMap.{
  Key, IsSorted, same_key, insert-IsSorted, remove-IsSorted,
}
use zksync_withdrawal_finali.Common.BTreeMap.Entries.{All-insert, All-remove, remove-others}
use zksync_withdrawal_finali.Client.{WithdrawalParams, FinalizeResult}
use zksync_withdrawal_finali.Accumulator.{
  WithdrawalsAccumulator, withdrawals, map_key, add_withdrawal, remove_unsuccessful,
}
use zksync_withdrawal_finali.Accumulator.Removal.{
  result_keys, remove_keys, remove_unsuccessful-returns,
}

abbrev pub names : FinalizeResult → WithdrawalParams → Bool
names f w = w.l1_batch_number == f.l_2_block_number && w.l2_message_index == f.l_2_message_index

-- No result names the withdrawal.
abbrev pub IsUnnamed : List FinalizeResult → WithdrawalParams → Type 0
IsUnnamed fs w = any (λ f. names f w) fs ≡ false

abbrev pub IsKeyed : List (Key × WithdrawalParams) → Type 0
IsKeyed = All (λ e. e.0 ≡ map_key e.1)

pub record IsValid (a : WithdrawalsAccumulator) : Type 0 where
  pub sorted : IsSorted a.withdrawals
  pub keyed : IsKeyed a.withdrawals

pub add_withdrawal-IsValid :
    (a : WithdrawalsAccumulator) (w : WithdrawalParams) → IsValid a → IsValid (add_withdrawal a w)
unfolding add_withdrawal
add_withdrawal-IsValid a w v = record {
  sorted = insert-IsSorted (map_key w) w a.withdrawals v.sorted;
  keyed = All-insert (λ e. e.0 ≡ map_key e.1) (map_key w) w a.withdrawals refl v.keyed;
}

-- No key of the list is the key of the entry.
abbrev IsApart : List Key → Key × WithdrawalParams → Type 0
IsApart ks e = any (λ k. same_key e.0 k) ks ≡ false

remove_keys-keep :
    (P : Key × WithdrawalParams → Type 0) (ks : List Key) (a : WithdrawalsAccumulator)
    → All P a.withdrawals
    → All P (remove_keys ks a).1.withdrawals
unfolding remove_keys
remove_keys-keep P [] a h = h
remove_keys-keep P (k ∷ ks) a h =
    remove_keys-keep P ks (record a { withdrawals = BTreeMap.remove k a.withdrawals })
      (All-remove P k a.withdrawals h)

remove_keys-IsSorted :
    (ks : List Key) (a : WithdrawalsAccumulator)
    → IsSorted a.withdrawals
    → IsSorted (remove_keys ks a).1.withdrawals
unfolding remove_keys
remove_keys-IsSorted [] a s = s
remove_keys-IsSorted (k ∷ ks) a s =
    remove_keys-IsSorted ks (record a { withdrawals = BTreeMap.remove k a.withdrawals })
      (remove-IsSorted k a.withdrawals s)

remove_keys-IsApart :
    (ks : List Key) (a : WithdrawalsAccumulator)
    → IsSorted a.withdrawals
    → All (IsApart ks) (remove_keys ks a).1.withdrawals
unfolding remove_keys
remove_keys-IsApart [] a s = all_apart a.withdrawals
  where
    all_apart : (m : List (Key × WithdrawalParams)) → All (IsApart []) m
    all_apart [] = tt
    all_apart (e ∷ m) = (refl, all_apart m)
remove_keys-IsApart (k ∷ ks) a s =
    let left = record a { withdrawals = BTreeMap.remove k a.withdrawals } in
    All-imp2 (remove_keys ks left).1.withdrawals (λ e p q. ground arith)
      (remove_keys-keep (λ e. same_key e.0 k ≡ false) ks left (remove-others k a.withdrawals s))
      (remove_keys-IsApart ks left (remove-IsSorted k a.withdrawals s))

-- Apart from the keys of the results, under its own key, is unnamed by them.
IsApart-IsUnnamed :
    (us : List FinalizeResult) (ks : List Key) (e : Key × WithdrawalParams)
    → result_keys us ≡ some ks
    → e.0 ≡ map_key e.1
    → IsApart ks e
    → IsUnnamed us e.1
IsApart-IsUnnamed [] ks e r k p = refl
IsApart-IsUnnamed (u ∷ us) ks e r k p = elim (Option-cases (result_keys us)) [
  | inl none_left ↦ ground arith
  | inr (rest, found) ↦ ground (arith, IsApart-IsUnnamed us rest e found k)
]

IsUnnamed-values :
    (us : List FinalizeResult) (ks : List Key) (m : List (Key × WithdrawalParams))
    → result_keys us ≡ some ks
    → IsKeyed m
    → All (IsApart ks) m
    → All (IsUnnamed us) (BTreeMap.values m)
IsUnnamed-values us ks [] r k p = tt
IsUnnamed-values us ks (e ∷ m) r k p =
    (IsApart-IsUnnamed us ks e r k.0 p.0, IsUnnamed-values us ks m r k.1 p.1)

remove_keys-IsUnnamed :
    (us : List FinalizeResult) (ks : List Key) (a : WithdrawalsAccumulator)
    → IsValid a
    → result_keys us ≡ some ks
    → IsValid (remove_keys ks a).1 × All (IsUnnamed us) (withdrawals (remove_keys ks a).1)
remove_keys-IsUnnamed us ks a v e =
    let keyed = remove_keys-keep (λ x. x.0 ≡ map_key x.1) ks a v.keyed in
    (
      record { sorted = remove_keys-IsSorted ks a v.sorted; keyed = keyed },
      IsUnnamed-values us ks (remove_keys ks a).1.withdrawals e keyed
          (remove_keys-IsApart ks a v.sorted),
    )

-- What is left is valid again, and no result names it.
pub remove_unsuccessful-IsUnnamed :
    (us : List FinalizeResult) (a : WithdrawalsAccumulator)
    (r : List WithdrawalParams × WithdrawalsAccumulator)
    → IsValid a
    → remove_unsuccessful us a ≡ some r
    → IsValid r.1 × All (IsUnnamed us) (withdrawals r.1)
remove_unsuccessful-IsUnnamed us a r v h =
    let (ks, e, same) = remove_unsuccessful-returns us a r h in
    subst (λ x. IsValid x.1 × All (IsUnnamed us) (withdrawals x.1)) same
      (remove_keys-IsUnnamed us ks a v e)
