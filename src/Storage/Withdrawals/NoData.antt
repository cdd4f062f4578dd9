-- ===== src/Storage/Withdrawals/NoData.antt =====
-- storage/src/lib.rs: which withdrawals `get_withdrawals_with_no_data` returns.
use mathlib.Core.Logic.Or
use mathlib.Core.List.{Mem, mem-cons, not-mem-nil, mem-map_of_mem}
use mathlib.Core.List.Perm
use native.Mathlib.Bridge.{le_prop}
use zksync_withdrawal_finali.Common.{
  unwrap_or, ℕ, zero, suc, ◌≤◌, ◌<◌, ◌≡◌, ◌≢◌, refl, true, none, some, List, [], ◌∷◌, map, filter,
  take, length, Perm, arith, leb, Bool-cases, Option-cases, inl, inr, length-take-le,
}
use zksync_withdrawal_finali.Common.Membership.{mem-filter, mem-take}
use zksync_withdrawal_finali.Storage.Tables.{Db, WithdrawalRow, FinalizationRow, max_of}
use zksync_withdrawal_finali.Storage.Blocks.{last_committed_block}
use zksync_withdrawal_finali.Storage.Withdrawals.{
  Scan, with_block, has_no_data, insert_by_block, order_by_block, last_id_with_data,
  get_withdrawals_with_no_data,
}

insert_by_block-perm :
    (r : WithdrawalRow) (rs : List WithdrawalRow) → Perm (insert_by_block r rs) (r ∷ rs)
unfolding insert_by_block
insert_by_block-perm r [] = Perm.rfl
insert_by_block-perm r (q ∷ qs) = elim (Bool-cases (leb r.l2_block_number q.l2_block_number)) [
  | inl e ↦ rw e Perm.rfl
  | inr e ↦ rw e (Perm.trans (Perm.cons q (insert_by_block-perm r qs)) (Perm.swap r q qs))
]

order_by_block-perm : (rs : List WithdrawalRow) → Perm (order_by_block rs) rs
unfolding order_by_block
order_by_block-perm [] = Perm.rfl
order_by_block-perm (r ∷ rs) =
    Perm.trans (insert_by_block-perm r (order_by_block rs)) (Perm.cons r (order_by_block-perm rs))

pub max_of-none : (n : ℕ) (ns : List ℕ) → Mem n ns → max_of ns ≢ none
max_of-none n [] m e = not-mem-nil m
max_of-none n (k ∷ ks) m e = ground arith

pub le-max_of : (n top : ℕ) (ns : List ℕ) → Mem n ns → max_of ns ≡ some top → n ≤ top
le-max_of n top [] m e = absurd (not-mem-nil m)
le-max_of n top (k ∷ ks) m e =
    Or.elim le_prop (mem-cons.0 m) (λ here. ground arith)
      λ later. elim (Option-cases (max_of ks)) [
        | inl p ↦ absurd (max_of-none n ks later p)
        | inr (t, p) ↦ ground (arith, le-max_of n t ks later p)
      ]

le-unwrap_or : (n : ℕ) (ns : List ℕ) → Mem n ns → n ≤ unwrap_or (max_of ns) 1
le-unwrap_or n ns m = elim (Option-cases (max_of ns)) [
  | inl p ↦ absurd (max_of-none n ns m p)
  | inr (t, p) ↦ rw p (le-max_of n t ns m p)
]

-- What a returned withdrawal has: a stored finalizable row in a committed block, whose id is above
-- 1 and above the id of every withdrawal with finalization data.
pub record IsNew (db : Db) (row : WithdrawalRow) : Type 0 where
  pub is_stored : Mem row db.withdrawals
  pub is_finalizable : row.finalizable ≡ true
  pub is_committed : row.l2_block_number ≤ last_committed_block db
  pub above_data : (r : FinalizationRow) → Mem r db.finalization_data → r.withdrawal_id < row.id

-- Block numbers do not fall along the list.
abbrev pub InOrder : List WithdrawalRow → Type 0
InOrder [] = Unit
InOrder (r ∷ []) = Unit
InOrder (r ∷ q ∷ qs) = (r.l2_block_number ≤ q.l2_block_number) × InOrder (q ∷ qs)

insert_by_block-InOrder :
    (r : WithdrawalRow) (rs : List WithdrawalRow) → InOrder rs → InOrder (insert_by_block r rs)
unfolding insert_by_block
insert_by_block-InOrder r [] s = tt
insert_by_block-InOrder r (q ∷ []) s = ground arith
insert_by_block-InOrder r (q ∷ p ∷ ps) s = ground (arith, insert_by_block-InOrder r (p ∷ ps) s.1)

order_by_block-InOrder : (rs : List WithdrawalRow) → InOrder (order_by_block rs)
unfolding order_by_block
order_by_block-InOrder [] = tt
order_by_block-InOrder (r ∷ rs) =
    insert_by_block-InOrder r (order_by_block rs) (order_by_block-InOrder rs)

take-InOrder : (n : ℕ) (rs : List WithdrawalRow) → InOrder rs → InOrder (take n rs)
take-InOrder zero rs s = tt
take-InOrder (suc n) [] s = tt
take-InOrder (suc zero) (r ∷ rs) s = tt
take-InOrder (suc (suc n)) (r ∷ []) s = tt
take-InOrder (suc (suc n)) (r ∷ q ∷ qs) s = (s.0, take-InOrder (suc n) (q ∷ qs) s.1)

has_no_data-IsNew :
    (db : Db) (row : WithdrawalRow)
    → Mem row db.withdrawals
    → has_no_data db row ≡ true
    → IsNew db row
unfolding has_no_data last_id_with_data
has_no_data-IsNew db row m h = record {
  is_stored = m;
  is_finalizable = ground arith;
  is_committed = ground arith;
  above_data = λ r mr.
      let top =
        le-unwrap_or r.withdrawal_id (map (λ r. r.withdrawal_id) db.finalization_data)
          (mem-map_of_mem _ mr) in
      ground (arith, top);
}

has_no_data-above_one :
    (db : Db) (row : WithdrawalRow)
    → db.finalization_data ≡ []
    → has_no_data db row ≡ true
    → 1 < row.id
unfolding has_no_data last_id_with_data
has_no_data-above_one db row e h = ground arith

-- Whatever the scan order, `get_withdrawals_with_no_data` returns at most `limit_by` withdrawals,
-- in the order of their blocks, and each is finalizable, in a block up to the last committed one,
-- and has an id above that of every withdrawal with finalization data, and above 1 if there is no
-- data: a withdrawal without data is not returned once a later id has some.
pub get_withdrawals_with_no_data-IsNew :
    (scan : Scan WithdrawalRow) (db : Db) (limit_by : ℕ)
    → (rows : List WithdrawalRow) × (get_withdrawals_with_no_data scan db limit_by
        ≡ map with_block rows)
      × (length rows ≤ limit_by)
      × InOrder rows
      × ((row : WithdrawalRow)
          → Mem row rows
          → IsNew db row × (db.finalization_data ≡ [] → 1 < row.id))
unfolding get_withdrawals_with_no_data
get_withdrawals_with_no_data-IsNew scan db limit_by = (
  take limit_by (order_by_block (scan.arrange chosen)),
  refl,
  length-take-le limit_by (order_by_block (scan.arrange chosen)),
  take-InOrder limit_by (order_by_block (scan.arrange chosen))
      (order_by_block-InOrder (scan.arrange chosen)),
  λ row m.
      let kept = mem-filter (has_no_data db) db.withdrawals (
        (Perm.mem_iff
            (Perm.trans (order_by_block-perm (scan.arrange chosen)) (scan.arrange_perm chosen))).0
          (mem-take limit_by _ m)) in
      (has_no_data-IsNew db row kept.0 kept.1, λ e. has_no_data-above_one db row e kept.1),
)
  where
    chosen : List WithdrawalRow
    chosen = filter (has_no_data db) db.withdrawals
