-- ===== src/Watcher/Blocks/Ranges.antt =====
-- watcher/src/lib.rs: what a request for a range of blocks comes to, and what a batch of events
-- writes, whatever fails.
use mathlib.Core.Option
use mathlib.Core.List.{append_assoc, append-nil, map-append}
use zksync_withdrawal_finali.Watcher.Hoare.{Triple-call, Triple-write}
use zksync_withdrawal_finali.Common.{
  arith, ℕ, ◌+◌, ◌%◌, ◌^◌, ◌≡◌, refl, sym, ap, ◌∙◌, Option, none, some, List, [], ◌∷◌, ◌++◌, map,
  Outcome, ok, err, panic, expect, as_u64, u64_mod, map_err, collect, Outcome-cases, inl, inr,
}
use zksync_withdrawal_finali.Common.Actions.{pure, lift, ◌>>=◌}
use zksync_withdrawal_finali.Common.Actions.Hoare.{
  Triple, Triple-bind, Triple-imp, Triple-pure, Triple-lift, Triple-attempt, Triple-bind_given,
  Given,
}
use zksync_withdrawal_finali.Client.Errors.{ClientError}
use zksync_withdrawal_finali.Watcher.World.{
  Env, State, Error, client_error, BlockRangesParams, l2_to_l1_events, Action, wrote,
}
use zksync_withdrawal_finali.Watcher.Blocks.{
  BlockEvent, BlocksVerificationFilter, block_commit, block_execution, blocks_verification,
  blocks_revert, l2_to_l1, flatten, committed_range, executed_range, verified_range, block_range,
  request_block_ranges, request_all, write_to_storage, write_all, process_block_events,
}

-- What an event says of L2 blocks, if `ranges` has the range of every batch on L1.
abbrev pub range_of : (ℕ → Option (ℕ × ℕ)) → BlockEvent → Option BlockRangesParams
range_of ranges (block_commit block_number event) =
    Option.map (committed_range block_number) (ranges (event.batch_number % 2 ^ 32))
range_of ranges (blocks_verification block_number event) =
    verified_range block_number (ranges ((event.previous_last_verified_batch + 1) % 2 ^ 32))
      (ranges (event.current_last_verified_batch % 2 ^ 32))
range_of ranges (block_execution block_number event) =
    Option.map (executed_range block_number) (ranges (event.batch_number % 2 ^ 32))
range_of ranges (blocks_revert block_number event) = none
range_of ranges (l2_to_l1 events) = some (l2_to_l1_events events)

abbrev pub written : (ℕ → Option (ℕ × ℕ)) → List BlockEvent → List BlockRangesParams
written ranges events = flatten (map (range_of ranges) events)

-- The node gives the same range for a batch whenever it answers.
abbrev pub Answers : Env → (ℕ → Option (ℕ × ℕ)) → Type 0
Answers env ranges =
    (n batch : ℕ) (range : Option (ℕ × ℕ))
    → env.get_l1_batch_block_range n batch ≡ ok range
    → range ≡ ranges batch

u64-eq : (n m : ℕ) → expect {E = Error} (as_u64 n) ≡ ok m → n ≡ m
u64-eq n m e = ground arith

abbrev pub Wrote : List Action → List BlockRangesParams → List Action → Type 0
Wrote start params trace = trace ≡ start ++ map wrote params

module _ (env : Env) (ranges : ℕ → Option (ℕ × ℕ)) (answers : Answers env ranges)
    (P : List Action → Type 0) where
  abbrev Is : {A : Type 0} → A → A → State → Type 0
  Is expected = Given (λ s. P s.trace) (λ a. a ≡ expected)

  answer-eq :
      (n batch : ℕ) (range : Option (ℕ × ℕ)) (o : Outcome ClientError (Option (ℕ × ℕ)))
      → env.get_l1_batch_block_range n batch ≡ o
      → map_err client_error o ≡ ok range
      → range ≡ ranges batch
  answer-eq n batch range (ok r) e f = answers n batch range (cc)
  answer-eq n batch range (err x) e f = cc
  answer-eq n batch range panic e f = cc

  block_range-Given :
      (batch : ℕ)
      → Triple
          (λ s. P s.trace)
          (block_range env batch)
          (Is (ranges (batch % 2 ^ 32)))
          (λ s. P s.trace)
  block_range-Given batch =
      Triple-imp (λ s p. p) (λ r s h. (h.0, answer-eq h.1.0 (batch % 2 ^ 32) r _ refl h.1.1))
        (λ s r. r) (Triple-call P _)

  u64-Given :
      (n : ℕ)
      → Triple {E = Error} (λ s. P s.trace) (lift (expect (as_u64 n))) (Is n) (λ s. P s.trace)
  u64-Given n = Triple-lift _ (λ m s e p. (p, sym (u64-eq n m e))) (λ s p. p)

  one_range-Given :
      (make : ℕ × ℕ → BlockRangesParams) (batch_number : ℕ)
      → Triple
          (λ s. P s.trace)
          (do
            batch ← lift (expect (as_u64 batch_number))
            range ← block_range env batch
            pure (Option.map make range))
          (Is (Option.map make (ranges (batch_number % 2 ^ 32))))
          (λ s. P s.trace)
  one_range-Given make batch_number = Triple-bind_given _ _ (u64-Given batch_number) (λ n e.
      Triple-bind_given _ _ (block_range-Given n) (λ range f.
        Triple-pure _ (λ s p. (p, ap (Option.map make) (f ∙ ap (λ k. ranges (k % 2 ^ 32)) e)))))

  verified-eq :
      (n : ℕ) (event : BlocksVerificationFilter) (a b : ℕ) (first last : Option (ℕ × ℕ))
      → a ≡ event.previous_last_verified_batch
      → b ≡ event.current_last_verified_batch
      → first ≡ ranges ((a + 1) % u64_mod % 2 ^ 32)
      → last ≡ ranges (b % 2 ^ 32)
      → verified_range n first last ≡ range_of ranges (blocks_verification n event)
  verified-eq n event a b first last e f g h = rw (g, wrapped, e, h, f) refl
    where
      wrapped : (a + 1) % u64_mod % 2 ^ 32 ≡ (a + 1) % 2 ^ 32
      wrapped = omega arith

  request_block_ranges-Given :
      (event : BlockEvent)
      → Triple
          (λ s. P s.trace)
          (request_block_ranges env event)
          (Is (range_of ranges event))
          (λ s. P s.trace)
  unfolding request_block_ranges
  request_block_ranges-Given (block_commit n event) =
      one_range-Given (committed_range n) event.batch_number
  request_block_ranges-Given (block_execution n event) =
      one_range-Given (executed_range n) event.batch_number
  request_block_ranges-Given (blocks_verification n event) =
      Triple-bind_given _ _ (u64-Given event.previous_last_verified_batch) (λ a e.
        Triple-bind_given _ _ (u64-Given event.current_last_verified_batch) (λ b f.
          Triple-bind_given _ _ (block_range-Given ((a + 1) % u64_mod)) (λ first g.
            Triple-bind_given _ _ (block_range-Given b)
              (λ last h. Triple-pure _ (λ s p. (p, verified-eq n event a b first last e f g h))))))
  request_block_ranges-Given (blocks_revert n event) = Triple-pure none (λ s p. (p, refl))
  request_block_ranges-Given (l2_to_l1 events) = Triple-pure _ (λ s p. (p, refl))

  abbrev Collects : List BlockEvent → List (Outcome Error (Option BlockRangesParams)) → Type 0
  Collects events answers =
      (results : List (Option BlockRangesParams))
      → collect answers ≡ ok results
      → results ≡ map (range_of ranges) events

  Collects-cons :
      (event : BlockEvent) (events : List BlockEvent) (o : Outcome Error (Option BlockRangesParams))
      (os : List (Outcome Error (Option BlockRangesParams)))
      → ((r : Option BlockRangesParams) → o ≡ ok r → r ≡ range_of ranges event)
      → Collects events os
      → Collects (event ∷ events) (o ∷ os)
  Collects-cons event events (ok r) os h c results e = elim (Outcome-cases (collect os)) [
    | inl (rest, f) ↦
        let same : ok (r ∷ rest) ≡ ok results = rw f at e in
        let first : r ≡ range_of ranges event = h r refl in
        let others : rest ≡ map (range_of ranges) events = c rest f in cc
    | inr (inl (x, f)) ↦ let no : err x ≡ ok results = rw f at e in cc
    | inr (inr f) ↦ let no : panic ≡ ok results = rw f at e in cc
  ]
  Collects-cons event events (err x) os h c results e = cc
  Collects-cons event events panic os h c results e = cc

  request_all-Collects :
      (events : List BlockEvent)
      → Triple
          (λ s. P s.trace)
          (request_all env events)
          (Given (λ s. P s.trace) (Collects events))
          (λ s. P s.trace)
  unfolding request_all
  request_all-Collects [] = Triple-pure [] (λ s p. (p, λ results e. cc))
  request_all-Collects (event ∷ events) =
      Triple-bind_given
        {F = λ o. (r : Option BlockRangesParams) → o ≡ ok r → r ≡ range_of ranges event} _ _
        (Triple-attempt (λ a s h. (h.0, λ r e. cc)) (λ x s h. (h, λ r e. cc)) (λ s h. h)
          (request_block_ranges-Given event))
        (λ o h.
          Triple-bind_given _ _ (request_all-Collects events)
            (λ os c. Triple-pure _ (λ s p. (p, Collects-cons event events o os h c))))

module _ (start : List Action) (all : List BlockRangesParams) where
  -- What was written since the start is the beginning of `all`.
  abbrev pub Began : List Action → Type 0
  Began trace =
      (done rest : List BlockRangesParams) × ((all ≡ done ++ rest) × Wrote start done trace)

module _ (env : Env) (start : List Action) (all : List BlockRangesParams) where
  write_all-Wrote :
      (done params rest : List BlockRangesParams)
      → all ≡ done ++ params ++ rest
      → Triple
          (λ s. Wrote start done s.trace)
          (write_all env params)
          (λ t s. Wrote start (done ++ params) s.trace)
          (λ s. Began start all s.trace)
  unfolding write_all write_to_storage
  write_all-Wrote done [] rest e =
      Triple-pure tt (λ s w. w ∙ ap (λ l. start ++ map wrote l) (sym (append-nil done)))
  write_all-Wrote done (p ∷ params) rest e =
      Triple-bind _ _
        (Triple-write (Wrote start done) (Wrote start (done ++ p ∷ [])) (Began start all) env _ _
          (λ t w.
            ap (λ l. l ++ wrote p ∷ []) w
            ∙ append_assoc start (map wrote done) (wrote p ∷ [])
            ∙ ap (λ l. start ++ l) (sym (map-append wrote done (p ∷ []))))
          (λ t w. (done, p ∷ params ++ rest, (e ∙ append_assoc done (p ∷ params) rest, w))))
        (λ t.
          Triple-imp (λ s w. w)
            (λ u s w. w ∙ ap (λ l. start ++ map wrote l) (append_assoc done (p ∷ []) params))
            (λ s w. w)
            (write_all-Wrote (done ++ p ∷ []) params rest
              (e ∙ ap (λ l. l ++ rest) (sym (append_assoc done (p ∷ []) params)))))

  module _ (ranges : ℕ → Option (ℕ × ℕ)) (answers : Answers env ranges) where
    pub process_block_events-Wrote :
        (done : List BlockRangesParams) (events : List BlockEvent) (rest : List BlockRangesParams)
        → all ≡ done ++ written ranges events ++ rest
        → Triple
            (λ s. Wrote start done s.trace)
            (process_block_events env events)
            (λ t s. Wrote start (done ++ written ranges events) s.trace)
            (λ s. Began start all s.trace)
    unfolding process_block_events
    process_block_events-Wrote done events rest e =
        Triple-bind_given {F = Collects env ranges answers (Wrote start done) events} _ _
          (Triple-imp (λ s w. w) (λ os s h. h) (λ s w. stopped w)
            (request_all-Collects env ranges answers (Wrote start done) events))
          (λ os c.
            Triple-bind_given {F = λ results. results ≡ map (range_of ranges) events} _ _
              (Triple-lift _ (λ results s f w. (w, c results f)) (λ s w. stopped w))
              (λ results f. rw f (write_all-Wrote done (written ranges events) rest e)))
      where
        stopped : {trace : List Action} → Wrote start done trace → Began start all trace
        stopped w = (done, written ranges events ++ rest, (e ∙ append_assoc done _ rest, w))
