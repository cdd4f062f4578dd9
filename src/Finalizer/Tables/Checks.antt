-- ===== src/Finalizer/Tables/Checks.antt =====
-- finalizer/src/lib.rs: `process_unsuccessful` keeps the tables reached.
use zksync_withdrawal_finali.Common.{
  ◌≡◌, refl, subst, arith, Bool, true, false, not, List, [], ◌∷◌, All, All-imp, filter-All, map,
  filter, Outcome, ok, err, panic, collect, Outcome-cases, Bool-cases, inl, inr, ==_iff,
}
use zksync_withdrawal_finali.Client.{WithdrawalKey, WithdrawalParams, key, is_eth}
use zksync_withdrawal_finali.Storage.Tables.{Db}
use zksync_withdrawal_finali.Finalizer.World.{Config, Env, Error}
use zksync_withdrawal_finali.Finalizer.Loop.{
  is_empty, has_key, same_key, finalized_keys, is_finalized, join_all, get_finalized_withdrawals,
  take_unsuccessful, process_taken, process_unsuccessful,
}
use zksync_withdrawal_finali.Finalizer.Tables
use zksync_withdrawal_finali.Finalizer.Tables.{IsAnswered, IsReported}
use zksync_withdrawal_finali.Finalizer.Tables.Keeping.{
  Any, Keeps, Keeps-bind, Keeps-pure, Keeps-lift, Keeps-if, Keeps-call, Keeps-act,
  Keeps-record_finalized, Keeps-record_failed,
}

same_key-≡ : (a b : WithdrawalKey) → same_key a b ≡ true → a ≡ b
same_key-≡ a b h i = record {
  tx_hash = (==_iff a.tx_hash b.tx_hash).0 (ground arith) i;
  event_index_in_tx = (==_iff a.event_index_in_tx b.event_index_in_tx).0 (ground arith) i;
}

same_key_refl : (a : WithdrawalKey) → same_key a a ≡ true
same_key_refl a =
    rw ((==_iff a.tx_hash a.tx_hash).1 refl)
      ((==_iff a.event_index_in_tx a.event_index_in_tx).1 refl)

has_key-All :
    (P : WithdrawalKey → Type 0) (keys : List WithdrawalKey) (k : WithdrawalKey)
    → All P keys
    → has_key keys k ≡ true
    → P k
has_key-All P [] k h e = cc
has_key-All P (j ∷ js) k h e = elim (Bool-cases (same_key j k)) [
  | inl same ↦ subst P (same_key-≡ j k same) h.0
  | inr other ↦ has_key-All P js k h.1 (rw other at e)
]

collect-ok :
    (answers : List (Outcome Error Bool)) (bs : List Bool)
    → collect answers ≡ ok bs
    → answers ≡ map ok bs
collect-ok [] bs e = let same : [] ≡ bs = cc in rw (← same) refl
collect-ok (err x ∷ os) bs e = cc
collect-ok (panic ∷ os) bs e = cc
collect-ok (ok a ∷ os) bs e = elim (Outcome-cases (collect os)) [
  | inl (rest, p) ↦
      let same : a ∷ rest ≡ bs = let joined : ok (a ∷ rest) ≡ ok bs = rw p at e in cc in
      rw (← same, ← collect-ok os rest p) refl
  | inr (inl (x, p)) ↦ let no : err x ≡ ok bs = rw p at e in cc
  | inr (inr p) ↦ let no : panic ≡ ok bs = rw p at e in cc
]

module _ (config : Config) (env : Env) where
  -- Each answer is that of its withdrawal's contract.
  abbrev Answers : List WithdrawalParams → List (Outcome Error Bool) → Type 0
  Answers [] [] = Unit
  Answers [] (a ∷ as') = ⊥
  Answers (wd ∷ wds) [] = ⊥
  Answers (wd ∷ wds) (a ∷ as') = IsAnswered config env wd a × Answers wds as'

  abbrev Results : List WithdrawalParams → List Bool → Type 0
  Results wds bs = Answers wds (map ok bs)

  Answers-collect :
      (wds : List WithdrawalParams) (answers : List (Outcome Error Bool)) (bs : List Bool)
      → Answers wds answers
      → collect answers ≡ ok bs
      → Results wds bs
  Answers-collect wds answers bs h e = subst (Answers wds) (collect-ok answers bs e) h

  finalized_keys-IsReported :
      (wds : List WithdrawalParams) (bs : List Bool)
      → Results wds bs
      → All (IsReported config env true) (finalized_keys wds bs)
  finalized_keys-IsReported [] bs h = tt
  finalized_keys-IsReported (wd ∷ wds) [] h = tt
  finalized_keys-IsReported (wd ∷ wds) (true ∷ bs) h =
      ((wd, refl, h.0), finalized_keys-IsReported wds bs h.1)
  finalized_keys-IsReported (wd ∷ wds) (false ∷ bs) h = finalized_keys-IsReported wds bs h.1

  -- The keys that are not among the finalized ones are those of withdrawals that the contracts
  -- answered false for.
  filter_missing-IsReported :
      (wds : List WithdrawalParams) (bs : List Bool) (found : List WithdrawalKey)
      → Results wds bs
      → ((k : WithdrawalKey) → has_key (finalized_keys wds bs) k ≡ true → has_key found k ≡ true)
      → All (IsReported config env false) (filter (λ k. not (has_key found k)) (map key wds))
  filter_missing-IsReported [] bs found h sub = tt
  filter_missing-IsReported (wd ∷ wds) [] found h sub = absurd h
  filter_missing-IsReported (wd ∷ wds) (true ∷ bs) found h sub =
      rw (sub (key wd) (rw (same_key_refl (key wd)) refl))
        (filter_missing-IsReported wds bs found h.1 (λ k e. sub k (ground (arith, e))))
  filter_missing-IsReported (wd ∷ wds) (false ∷ bs) found h sub =
      let rest = filter_missing-IsReported wds bs found h.1 sub in
      elim (Bool-cases (has_key found (key wd))) [
        | inl e ↦ rw e rest
        | inr e ↦ rw e ((wd, refl, h.0), rest)
      ]

  filter_found-IsReported :
      (wds : List WithdrawalParams) (bs : List Bool)
      → Results wds bs
      → All (IsReported config env true) (filter (has_key (finalized_keys wds bs)) (map key wds))
  filter_found-IsReported wds bs h =
      All-imp _
        (λ k.
          has_key-All (IsReported config env true) (finalized_keys wds bs) k
            (finalized_keys-IsReported wds bs h))
        (filter-All (has_key (finalized_keys wds bs)) (map key wds))

  module _ (start : Db) where
    is_finalized-Keeps :
        (wd : WithdrawalParams)
        → Keeps config env start (is_finalized env wd) (IsAnswered config env wd)
    unfolding is_finalized
    is_finalized-Keeps wd =
        Keeps-if config env start (is_eth wd.sender) _ _
          (λ e. Keeps-call config env start _ (λ n a same. (n, inl (e, cc))))
          (λ e. Keeps-call config env start _ (λ n a same. (n, inr (e, cc))))

    join_all-Keeps :
        (wds : List WithdrawalParams) → Keeps config env start (join_all env wds) (Answers wds)
    unfolding join_all
    join_all-Keeps [] = Keeps-pure config env start [] tt
    join_all-Keeps (wd ∷ wds) =
        Keeps-bind config env start {F = IsAnswered config env wd} _ _ (is_finalized-Keeps wd)
          (λ answer h.
            Keeps-bind config env start {F = Answers wds} _ _ (join_all-Keeps wds)
              (λ answers hs. Keeps-pure config env start _ (h, hs)))

    -- The keys are those of the withdrawals that were answered true for.
    abbrev AreFinalized : List WithdrawalParams → List WithdrawalKey → Type 0
    AreFinalized wds found = (bs : List Bool) × Results wds bs × (found ≡ finalized_keys wds bs)

    get_finalized_withdrawals-Keeps :
        (wds : List WithdrawalParams)
        → Keeps config env start (get_finalized_withdrawals env wds) (AreFinalized wds)
    unfolding get_finalized_withdrawals
    get_finalized_withdrawals-Keeps wds =
        Keeps-bind config env start {F = Answers wds} _ _ (join_all-Keeps wds) (λ answers h.
          Keeps-bind config env start {F = Results wds} _ _
            (Keeps-lift config env start (collect answers)
              (λ bs e. Answers-collect wds answers bs h e))
            (λ bs hs. Keeps-pure config env start _ (bs, hs, refl)))

    process_taken-Keeps :
        (ws : List WithdrawalParams) → Keeps config env start (process_taken config env ws) Any
    unfolding process_taken
    process_taken-Keeps ws =
        Keeps-bind config env start {F = AreFinalized ws} _ _ (get_finalized_withdrawals-Keeps ws)
          (λ found (bs, h, e).
            Keeps-bind config env start {F = Any} _ _ (Keeps-act config env start _) (λ r t.
              Keeps-bind config env start {F = Any} _ _
                (Keeps-record_failed config env start _ (
                  Tables.not_finalized _
                    (filter_missing-IsReported ws bs found h (λ k has. rw e has))))
                (λ r t.
                  Keeps-record_finalized config env start _ 0
                    (Tables.already _ (rw e (filter_found-IsReported ws bs h))))))

    pub process_unsuccessful-Keeps : Keeps config env start (process_unsuccessful config env) Any
    unfolding process_unsuccessful take_unsuccessful
    process_unsuccessful-Keeps =
        Keeps-bind config env start {F = Any} _ _ (record { at = λ s p. (p, tt) })
          (λ taken t.
            Keeps-if config env start (is_empty taken) _ _ (λ e. Keeps-pure config env start tt tt)
              (λ e. process_taken-Keeps taken))
