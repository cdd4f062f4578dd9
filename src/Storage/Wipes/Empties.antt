-- ===== src/Storage/Wipes/Empties.antt =====
-- storage/src/lib.rs: the deletion ends, and leaves nothing.
use mathlib.Core.List.{Perm, mem-cons_self}
use mathlib.Core.List.Perm
use zksync_withdrawal_finali.Common.{
  ℕ, zero, suc, ◌≤◌, ◌<◌, ◌≡◌, refl, Bool, true, false, not, List, [], ◌∷◌, map, filter, take, any,
  length, arith, ok, contains,
}
use zksync_withdrawal_finali.Common.Membership.{any_of_mem, mem-contains, length-perm}
use zksync_withdrawal_finali.Storage.Tables.{Db, WithdrawalRow, empty}
use zksync_withdrawal_finali.Storage.Withdrawals.{Scan}
use zksync_withdrawal_finali.Storage.Wipes.{
  Scans, has_rows, is_chosen, wipe, wipe_finalization_data, wipe_l2_blocks, wipe_l2_to_l1_events,
  wipe_tokens, is_referenced, wipe_withdrawals, delete_db_content,
}

module _ {A : Type 0} (p : A → Bool) where
  any-has_rows : (rows : List A) → any p rows ≡ true → has_rows (filter p rows) ≡ true
  any-has_rows [] h = cc
  any-has_rows (r ∷ rs) h = ground (arith, any-has_rows rs)

  length-filter : (rows : List A) → length (filter (λ r. not (p r)) rows) ≤ length rows
  length-filter [] = omega arith
  length-filter (r ∷ rs) = ground (arith, length-filter rs)

  any-shrinks :
      (rows : List A) → any p rows ≡ true → length (filter (λ r. not (p r)) rows) < length rows
  any-shrinks [] h = cc
  any-shrinks (r ∷ rs) h = ground (arith, length-filter rs, any-shrinks rs)

module _ {A : Type 0} (key_of : A → ℕ) (scan : Scan A) (delete_batch_size : ℕ) where
  abbrev chosen : List A → A → Bool
  chosen = is_chosen key_of scan delete_batch_size

  -- A batch of one or more takes a row from a table that has any.
  some_chosen :
      (rows : List A) → 1 ≤ delete_batch_size → 0 < length rows → any (chosen rows) rows ≡ true
  some_chosen rows size full =
      go delete_batch_size size (scan.arrange rows) (scan.arrange_perm rows)
    where
      go :
          (n : ℕ)
          → 1 ≤ n
          → (arranged : List A) → Perm arranged rows
          → any (λ r. contains (key_of r) (map key_of (take n arranged))) rows ≡ true
      go zero h as' perm = absurd (omega arith)
      go (suc n) h [] perm = absurd (omega (arith, length-perm perm))
      go (suc n) h (a ∷ as') perm =
          any_of_mem (λ r. contains (key_of r) (map key_of (take (suc n) (a ∷ as')))) rows
            ((Perm.mem_iff perm).0 mem-cons_self) (mem-contains (key_of a) _ mem-cons_self)

  wipe-empties :
      (violates : List A → Bool) (fuel : ℕ) (rows : List A)
      → 1 ≤ delete_batch_size
      → length rows < fuel
      → ((deleted : List A) → violates deleted ≡ false)
      → wipe key_of scan delete_batch_size violates fuel rows ≡ ok []
  unfolding wipe
  wipe-empties violates zero rows size enough safe = absurd (omega arith)
  wipe-empties violates (suc fuel) [] size enough safe = rw (safe []) refl
  wipe-empties violates (suc fuel) (r ∷ rs) size enough safe =
      let some_one = some_chosen (r ∷ rs) size (omega arith) in
      let shorter = any-shrinks (chosen (r ∷ rs)) (r ∷ rs) some_one in
      rw
        (safe (filter (chosen (r ∷ rs)) (r ∷ rs)), any-has_rows (chosen (r ∷ rs)) (r ∷ rs) some_one)
        (wipe-empties violates fuel (filter (λ q. not (chosen (r ∷ rs) q)) (r ∷ rs)) size
          (omega arith) safe)

unreferenced :
    (scans : Scans) (size fuel : ℕ) (db : Db)
    → db.finalization_data ≡ []
    → (deleted : List WithdrawalRow) → is_referenced scans size fuel db deleted ≡ false
unreferenced scans size fuel db e [] = refl
unreferenced scans size fuel db e (w ∷ ws) = ground (arith, unreferenced scans size fuel db e ws)

-- With batches of one row or more, and more rounds allowed than any table has rows, the deletion
-- of the content returns, and leaves every table empty and the sequence of the ids where it was.
pub delete_db_content-empties :
    (scans : Scans) (size fuel : ℕ) (db : Db)
    → 1 ≤ size
    → length db.finalization_data < fuel
    → length db.l2_blocks < fuel
    → length db.l2_to_l1_events < fuel
    → length db.withdrawals < fuel
    → delete_db_content scans size fuel db ≡ ok (record empty { next_id = db.next_id })
unfolding delete_db_content wipe_finalization_data wipe_l2_blocks wipe_l2_to_l1_events wipe_tokens
    wipe_withdrawals
delete_db_content-empties scans size fuel db positive few blocks events withdrawals =
    rw
      (
        wipe-empties (λ r. r.withdrawal_id) scans.finalization_data size (λ d. false) fuel
            db.finalization_data positive few (λ d. refl),
        wipe-empties (λ r. r.l2_block_number) scans.l2_blocks size (λ d. false) fuel db.l2_blocks
            positive blocks (λ d. refl),
        wipe-empties (λ r. r.l1_block_number) scans.l2_to_l1_events size (λ d. false) fuel
            db.l2_to_l1_events positive events (λ d. refl),
        wipe-empties (λ r. r.id) scans.withdrawals size
            (is_referenced scans size fuel
              (record empty { next_id = db.next_id; withdrawals = db.withdrawals }))
            fuel db.withdrawals positive withdrawals
            (unreferenced scans size fuel
              (record empty { next_id = db.next_id; withdrawals = db.withdrawals }) refl),
      )
      refl

none_chosen :
    {A : Type 0} (key_of : A → ℕ) (scan : Scan A) (rows all : List A)
    → filter (is_chosen key_of scan 0 all) rows ≡ []
none_chosen key_of scan [] all = refl
none_chosen key_of scan (r ∷ rs) all = none_chosen key_of scan rs all

wipe-nothing :
    {A : Type 0} (key_of : A → ℕ) (scan : Scan A) (violates : List A → Bool) (fuel : ℕ)
    (rows : List A)
    → violates [] ≡ false
    → wipe key_of scan 0 violates (suc fuel) rows ≡ ok rows
unfolding wipe
wipe-nothing key_of scan violates fuel rows safe = rw (none_chosen key_of scan rows rows, safe) refl

-- With a batch size of zero the deletion reports success, and only the tokens are gone.
delete_db_content-zero :
    (scans : Scans) (fuel : ℕ) (db : Db)
    → delete_db_content scans 0 (suc fuel) db ≡ ok (record db { tokens = [] })
unfolding delete_db_content wipe_finalization_data wipe_l2_blocks wipe_l2_to_l1_events wipe_tokens
    wipe_withdrawals
delete_db_content-zero scans fuel db =
    rw
      (
        wipe-nothing (λ r. r.withdrawal_id) scans.finalization_data (λ d. false) fuel
            db.finalization_data refl,
        wipe-nothing (λ r. r.l2_block_number) scans.l2_blocks (λ d. false) fuel db.l2_blocks refl,
        wipe-nothing (λ r. r.l1_block_number) scans.l2_to_l1_events (λ d. false) fuel
            db.l2_to_l1_events refl,
        wipe-nothing (λ r. r.id) scans.withdrawals
            (is_referenced scans 0 (suc fuel) (record db { tokens = [] })) fuel db.withdrawals refl,
      )
      refl
