-- ===== src/Storage/Selection/Complete.antt =====
-- storage/src/lib.rs: the rows that the three selecting queries return unless the limit is reached.
use mathlib.Core.Logic.{∥∥₁_prop}
use mathlib.Core.Logic.Or
use native.Mathlib.Bridge.{le_prop}
use mathlib.Core.List.{
  Mem, mem-map_of_mem, mem-append, mem-cons, not-mem-nil, mem-cons_of_mem, mem-cons_self,
}
use mathlib.Core.List.Perm
use zksync_withdrawal_finali.Common.{
  unwrap_or, ℕ, ◌+◌, ◌≤◌, ◌<◌, ◌≡◌, ◌≢◌, refl, ◌⊎◌, false, Bool, true, none, Option, some, List, [],
  ◌∷◌, filter, take, length, contains, take-all, length-take, length-map, arith, leb, ◌==◌, ==_iff,
  Bool-cases, Option-cases, inl, inr,
}
use zksync_withdrawal_finali.Common.Membership.{filter-mem, mem-contains, contains-mem}
use zksync_withdrawal_finali.Client.{eth_token_address}
use zksync_withdrawal_finali.Storage.Tables.{Db, WithdrawalRow, FinalizationRow, L2BlockRow, max_of}
use zksync_withdrawal_finali.Storage.Blocks.{last_executed_block, is_some}
use zksync_withdrawal_finali.Storage.Withdrawals.{Scan}
use zksync_withdrawal_finali.Storage.Selection.{
  Joined, join_row, join, is_pending, is_rested, passes_threshold, params_of, eligible,
  eligible_whitelisted, eligible_not_blacklisted, select, withdrawals_to_finalize,
  withdrawals_to_finalize_with_whitelist, withdrawals_to_finalize_with_blacklist,
}
use zksync_withdrawal_finali.Storage.Selection.Criteria.{Joins}

join_row-mem :
    (f : FinalizationRow) (w : WithdrawalRow) (ws : List WithdrawalRow)
    → Mem w ws
    → f.withdrawal_id ≡ w.id
    → Mem (f, w) (join_row f ws)
unfolding join_row
join_row-mem f w [] m e = absurd (not-mem-nil m)
join_row-mem f w (v ∷ vs) m e =
    Or.elim ∥∥₁_prop (mem-cons.0 m)
      (λ here.
        let joined : (f.withdrawal_id == v.id) ≡ true = rw (← here) ((==_iff _ _).1 e) in
        rw (joined, here) mem-cons_self)
      (λ later.
        let rest = join_row-mem f w vs later e in
        elim (Bool-cases (f.withdrawal_id == v.id)) [
          | inl b ↦ rw b (mem-cons_of_mem (f, v) rest)
          | inr b ↦ rw b rest
        ])

join-mem :
    (f : FinalizationRow) (w : WithdrawalRow) (fs : List FinalizationRow) (ws : List WithdrawalRow)
    → Mem f fs
    → Mem w ws
    → f.withdrawal_id ≡ w.id
    → Mem (f, w) (join fs ws)
unfolding join
join-mem f w [] ws mf mw e = absurd (not-mem-nil mf)
join-mem f w (g ∷ gs) ws mf mw e =
    Or.elim ∥∥₁_prop (mem-cons.0 mf)
      (λ here. rw (← here) (mem-append.1 (Or.inl (join_row-mem f w ws mw e))))
      (λ later. mem-append.1 (Or.inr (join-mem f w gs ws later mw e)))

-- A joined row that passes the query's test is returned, or the limit is reached.
pub select-mem :
    (scan : Scan Joined) (db : Db) (limit_by : ℕ) (test : Joined → Bool) (row : Joined)
    → Joins db.finalization_data db.withdrawals row
    → test row ≡ true
    → Mem (params_of row) (select scan db limit_by test)
      ⊎ (length (select scan db limit_by test) ≡ limit_by)
unfolding select
select-mem scan db limit_by test row j t = elim (Bool-cases (leb (length arranged) limit_by)) [
  | inl few ↦ inl (
      rw (take-all limit_by arranged (ground arith))
        (mem-map_of_mem params_of ((Perm.mem_iff (scan.arrange_perm chosen)).1 held)))
  | inr many ↦ inr (
      omega (
        arith,
        length-map params_of (take limit_by arranged),
        length-take limit_by arranged (ground arith),
      ))
]
  where
    chosen : List Joined
    chosen = filter test (join db.finalization_data db.withdrawals)

    arranged : List Joined
    arranged = scan.arrange chosen

    held : Mem row chosen
    held =
        filter-mem test (join db.finalization_data db.withdrawals)
          (join-mem row.0 row.1 db.finalization_data db.withdrawals j.has_data j.is_stored
            j.same_id)
          t

le-max_of : (n d : ℕ) (ns : List ℕ) → Mem n ns → n ≤ unwrap_or (max_of ns) d
le-max_of n d [] m = absurd (not-mem-nil m)
le-max_of n d (k ∷ ns) m = elim (Option-cases (max_of ns)) [
  | inl e ↦
      Or.elim le_prop (mem-cons.0 m) (λ same. ground arith)
        (λ later. absurd (le-max_of_none n ns later e))
  | inr (b, e) ↦
      Or.elim le_prop (mem-cons.0 m) (λ same. ground arith)
        (λ later. let below : n ≤ b = rw e at (le-max_of n d ns later) in ground arith)
]
  where
    le-max_of_none : (n : ℕ) (ns : List ℕ) → Mem n ns → max_of ns ≡ none → ⊥
    le-max_of_none n [] h e = not-mem-nil h
    le-max_of_none n (k ∷ ns) h e = ground arith

-- What every query asks of a withdrawal and its finalization row, with an executed block that is
-- not before the withdrawal's.
pub record IsDue (db : Db) (eth_threshold : Option ℕ) (row : Joined) : Type 0 where
  pub joins : Joins db.finalization_data db.withdrawals row
  pub not_finalized : row.0.finalization_tx ≡ none
  pub attempts_left : row.0.failed_finalization_attempts < 3
  pub block : L2BlockRow
  pub has_block : Mem block db.l2_blocks
  pub executed : block.execute_l1_block_number ≢ none
  pub not_later : row.0.l2_block_number ≤ block.l2_block_number
  pub large_enough : row.1.token ≡ eth_token_address → unwrap_or eth_threshold 0 ≤ row.1.amount

≢none→is_some : {A : Type 0} (o : Option A) → o ≢ none → is_some o ≡ true
≢none→is_some none h = absurd (h refl)
≢none→is_some (some a) h = refl

IsDue-is_pending :
    (db : Db) (threshold : Option ℕ) (row : Joined)
    → IsDue db threshold row
    → is_pending db row ≡ true
unfolding is_pending last_executed_block
IsDue-is_pending db threshold row d =
    let found = le-max_of d.block.l2_block_number 1 _ (
      mem-map_of_mem (λ (r : L2BlockRow). r.l2_block_number)
        (filter-mem (λ (r : L2BlockRow). is_some r.execute_l1_block_number) db.l2_blocks d.has_block
          (≢none→is_some _ d.executed))) in
    ground (arith, found, d.not_finalized, d.attempts_left, d.not_later)

IsDue-passes_threshold :
    (db : Db) (threshold : Option ℕ) (row : Joined)
    → IsDue db threshold row
    → passes_threshold threshold row ≡ true
unfolding passes_threshold
IsDue-passes_threshold db threshold row d = elim (Bool-cases (row.1.token == eth_token_address)) [
  | inl e ↦ let enough = d.large_enough ((==_iff _ _).0 e) in ground arith
  | inr e ↦ ground arith
]

is_rested_lem :
    (now : ℕ) (row : Joined)
    → ((last : ℕ) → row.0.last_finalization_attempt ≡ some last → last + 60 < now)
    → is_rested now row ≡ true
unfolding is_rested
is_rested_lem now row h = elim (Option-cases row.0.last_finalization_attempt) [
  | inl e ↦ rw e refl
  | inr (last, e) ↦ let waited = h last e in ground arith
]

-- Whatever the server's scan order, `withdrawals_to_finalize` returns every withdrawal with
-- finalization data that is not finalized, has fewer than three failed attempts and none in the
-- last 60 seconds, is in a block no higher than some executed block, and, if it is of ETH, is not
-- below the threshold; or it returns as many withdrawals as the limit.
pub withdrawals_to_finalize_complete :
    (scan : Scan Joined) (db : Db) (now limit_by : ℕ) (threshold : Option ℕ) (row : Joined)
    → IsDue db threshold row
    → ((last : ℕ) → row.0.last_finalization_attempt ≡ some last → last + 60 < now)
    → Mem (params_of row) (withdrawals_to_finalize scan db now limit_by threshold)
      ⊎ (length (withdrawals_to_finalize scan db now limit_by threshold) ≡ limit_by)
unfolding withdrawals_to_finalize eligible
withdrawals_to_finalize_complete scan db now limit_by threshold row d rested =
    let pending = IsDue-is_pending db threshold row d in
    let passes = IsDue-passes_threshold db threshold row d in
    let waited = is_rested_lem now row rested in
    select-mem scan db limit_by (eligible db now threshold) row d.joins (ground arith)

-- Whatever the scan order, the query with a whitelist returns every withdrawal with finalization
-- data that is not finalized, has fewer than three failed attempts, is in a block no higher than
-- some executed block, is of a token on the list, and, if it is of ETH, is not below the threshold;
-- or it returns as many withdrawals as the limit.
pub whitelist_complete :
    (scan : Scan Joined) (db : Db) (limit_by : ℕ) (whitelist : List ℕ) (threshold : Option ℕ)
    (row : Joined)
    → IsDue db threshold row
    → Mem row.1.token whitelist
    → Mem
        (params_of row)
        (withdrawals_to_finalize_with_whitelist scan db limit_by whitelist threshold)
      ⊎ (length (withdrawals_to_finalize_with_whitelist scan db limit_by whitelist threshold)
          ≡ limit_by)
unfolding withdrawals_to_finalize_with_whitelist eligible_whitelisted
whitelist_complete scan db limit_by whitelist threshold row d listed =
    let pending = IsDue-is_pending db threshold row d in
    let passes = IsDue-passes_threshold db threshold row d in
    let on_list = mem-contains row.1.token whitelist listed in
    select-mem scan db limit_by (eligible_whitelisted db whitelist threshold) row d.joins
      (ground arith)

contains-false : (a : ℕ) (xs : List ℕ) → (Mem a xs → ⊥) → contains a xs ≡ false
contains-false a xs h = elim (Bool-cases (contains a xs)) [
  | inl e ↦ absurd (h (contains-mem a xs e))
  | inr e ↦ e
]

-- Whatever the scan order, the query with a blacklist returns every withdrawal with finalization
-- data that is not finalized, has fewer than three failed attempts, is in a block no higher than
-- some executed block, is of a token not on the list, and, if it is of ETH, is not below the
-- threshold; or it returns as many withdrawals as the limit.
pub blacklist_complete :
    (scan : Scan Joined) (db : Db) (limit_by : ℕ) (blacklist : List ℕ) (threshold : Option ℕ)
    (row : Joined)
    → IsDue db threshold row
    → (Mem row.1.token blacklist → ⊥)
    → Mem
        (params_of row)
        (withdrawals_to_finalize_with_blacklist scan db limit_by blacklist threshold)
      ⊎ (length (withdrawals_to_finalize_with_blacklist scan db limit_by blacklist threshold)
          ≡ limit_by)
unfolding withdrawals_to_finalize_with_blacklist eligible_not_blacklisted
blacklist_complete scan db limit_by blacklist threshold row d unlisted =
    let pending = IsDue-is_pending db threshold row d in
    let passes = IsDue-passes_threshold db threshold row d in
    let off_list = contains-false row.1.token blacklist unlisted in
    select-mem scan db limit_by (eligible_not_blacklisted db blacklist threshold) row d.joins
      (ground arith)
