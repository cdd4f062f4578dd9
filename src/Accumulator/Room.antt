-- ===== src/Accumulator/Room.antt =====
-- finalizer/src/accumulator.rs: how far a batch can go beyond the gas limit.
use zksync_withdrawal_finali.Common.{
  ℕ, suc, ◌*◌, ◌≤◌, ◌<◌, ◌≡◌, ◌⊎◌, refl, ap, false, some, List, [], ◌∷◌, arith, All, length, inl,
  inr,
}
use native.Mathlib.Nat.{mul-le-mul_left}
use zksync_withdrawal_finali.Common.BTreeMap
use zksync_withdrawal_finali.Common.BTreeMap.{Key, length-insert, length-remove}
use zksync_withdrawal_finali.Client.{WithdrawalParams, FinalizeResult}
use zksync_withdrawal_finali.Accumulator.{
  WithdrawalsAccumulator, withdrawals, map_key, add_withdrawal, remove_unsuccessful,
  ready_to_finalize, new,
}
use zksync_withdrawal_finali.Accumulator.Removal.{remove_keys, remove_unsuccessful-returns}
use zksync_withdrawal_finali.Accumulator.Unnamed.{
  IsValid, IsUnnamed, add_withdrawal-IsValid, remove_unsuccessful-IsUnnamed,
}

module _ (one batch : ℕ) where
  -- The gas of `n` withdrawals is below the limit, or there are none.
  abbrev pub HasRoom : ℕ → Type 0
  HasRoom n = (n ≡ 0) ⊎ (one * n < batch)

  pub HasRoom-le : (m n : ℕ) → m ≤ n → HasRoom n → HasRoom m
  HasRoom-le m n h (inl e) = inl (omega arith)
  HasRoom-le m n h (inr l) =
      let mono : one * m ≤ one * n = mul-le-mul_left one h in inr (omega arith)

  -- A valid accumulator with these limits.
  pub record IsHeld (a : WithdrawalsAccumulator) : Type 0 where
    pub valid : IsValid a
    pub one_is : a.one_withdrawal_gas_limit ≡ one
    pub batch_is : a.batch_finalization_gas_limit ≡ batch

  -- Another withdrawal may be added.
  pub record IsOpen (a : WithdrawalsAccumulator) : Type 0 where
    pub held : IsHeld a
    pub room : HasRoom (length a.withdrawals)

  -- Without one of its withdrawals, another might be added.
  pub record IsClosing (a : WithdrawalsAccumulator) : Type 0 where
    pub held : IsHeld a
    pub before : (n : ℕ) × (length a.withdrawals ≤ suc n) × HasRoom n

  pub new-IsOpen : (gas_price tx_fee_limit : ℕ) → IsOpen (new gas_price tx_fee_limit batch one)
  unfolding new
  new-IsOpen gas_price tx_fee_limit = record {
    held = record { valid = record { sorted = tt; keyed = tt }; one_is = refl; batch_is = refl };
    room = inl refl;
  }

  pub add_withdrawal-IsClosing :
      (a : WithdrawalsAccumulator) (w : WithdrawalParams)
      → IsOpen a
      → IsClosing (add_withdrawal a w)
  unfolding add_withdrawal
  add_withdrawal-IsClosing a w o = record {
    held = record {
      valid = add_withdrawal-IsValid a w o.held.valid;
      one_is = o.held.one_is;
      batch_is = o.held.batch_is;
    };
    before =
        (length a.withdrawals, omega (arith, length-insert (map_key w) w a.withdrawals), o.room);
  }

  -- What is not ready to be finalized is open.
  pub unready-IsOpen :
      (a : WithdrawalsAccumulator) → IsHeld a → ready_to_finalize a ≡ some false → IsOpen a
  unfolding ready_to_finalize
  unready-IsOpen a h e =
      let small : a.one_withdrawal_gas_limit * length a.withdrawals
          < a.batch_finalization_gas_limit =
        ground arith in
      record { held = h; room = inr (rw (h.one_is, h.batch_is) at small) }

  remove_keys-smaller :
      (ks : List Key) (a : WithdrawalsAccumulator)
      → (length (remove_keys ks a).1.withdrawals ≤ length a.withdrawals)
        × ((remove_keys ks a).1.one_withdrawal_gas_limit ≡ a.one_withdrawal_gas_limit)
        × ((remove_keys ks a).1.batch_finalization_gas_limit ≡ a.batch_finalization_gas_limit)
  unfolding remove_keys
  remove_keys-smaller [] a = (omega arith, refl, refl)
  remove_keys-smaller (k ∷ ks) a =
      let left = record a { withdrawals = BTreeMap.remove k a.withdrawals } in
      let (shorter, one_is, batch_is) = remove_keys-smaller ks left in
      (omega (arith, length-remove k a.withdrawals), one_is, batch_is)

  pub remove_unsuccessful-IsClosing :
      (us : List FinalizeResult) (a : WithdrawalsAccumulator)
      (r : List WithdrawalParams × WithdrawalsAccumulator)
      → IsClosing a
      → remove_unsuccessful us a ≡ some r
      → IsClosing r.1 × All (IsUnnamed us) (withdrawals r.1)
  remove_unsuccessful-IsClosing us a r c e =
      let (ks, named, same) = remove_unsuccessful-returns us a r e in
      let (shorter, one_same, batch_same) = remove_keys-smaller ks a in
      let (valid, unnamed) = remove_unsuccessful-IsUnnamed us a r c.held.valid e in
      let size : length (remove_keys ks a).1.withdrawals ≡ length r.1.withdrawals =
        ap (λ x. length x.1.withdrawals) same in
      (
        record {
          held = record { valid = valid; one_is = cc; batch_is = cc };
          before = (c.before.0, omega (arith, shorter, size, c.before.1), c.before.2);
        },
        unnamed,
      )
