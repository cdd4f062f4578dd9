-- ===== src/Meter/Cache.antt =====
-- withdrawals-meterer/src/lib.rs: the cache of tokens changes no metric.
use mathlib.Core.Option
use zksync_withdrawal_finali.Common.{
  ℕ, ◌≡◌, refl, sym, ap, ◌∙◌, Bool, true, false, Option, none, some, List, [], ◌∷◌, ◌++◌, filter,
  ◌==◌, ==_iff, Bool-cases, inl, inr,
}
use zksync_withdrawal_finali.Common.Actions.Hoare.{
  Post, Triple, Triple-bind, Triple-pure, Triple-bind_given, Given,
}
use zksync_withdrawal_finali.Storage.Tables.{Db}
use zksync_withdrawal_finali.Storage.Tokens.{
  token_decimals_and_l1_address, first_row, decimals_and_address,
}
use zksync_withdrawal_finali.Storage.Withdrawals.{StoredWithdrawal}
use zksync_withdrawal_finali.Meter.{
  Env, State, Tokens, get, cached, insert, query, run_query, remember, if_missing,
}

abbrev pub first_of : {A : Type 0} → Option A → Option A → Option A
first_of (some a) b = some a
first_of none b = b

module _ {F : Type 0} (env : Env F) where
  -- No other task writes `tokens`.
  abbrev pub KeepsTokens : Type 0
  KeepsTokens = (n : ℕ) (db : Db) → (env.others n db).tokens ≡ db.tokens

  -- What is known of a token: from the start, or else from the table.
  abbrev pub known : Tokens → Db → ℕ → Option (ℕ × ℕ)
  known tokens db token =
      first_of (get token tokens) (token_decimals_and_l1_address env.scan db token)

  abbrev pub amount_of : ℕ → Option F → List (ℕ × F)
  amount_of address none = []
  amount_of address (some f) = (address, f) ∷ []

  abbrev pub increment : ℕ → Option (ℕ × ℕ) → List (ℕ × F)
  increment amount none = []
  increment amount (some d) = amount_of d.1 (env.format amount d.0)

  -- The increments of withdrawals, each token looked up by itself.
  abbrev pub increments : (ℕ → Option (ℕ × ℕ)) → List StoredWithdrawal → List (ℕ × F)
  increments lookup [] = []
  increments lookup (w ∷ ws) =
      increment w.event.amount (lookup w.event.token) ++ increments lookup ws

  lookup-tokens :
      (a b : Db) (token : ℕ)
      → a.tokens ≡ b.tokens
      → token_decimals_and_l1_address env.scan a token
        ≡ token_decimals_and_l1_address env.scan b token
  unfolding token_decimals_and_l1_address
  lookup-tokens a b token e =
      ap
        (λ rows.
          Option.map decimals_and_address
            (first_row (env.scan.arrange (filter (λ r. r.l2_token_address == token) rows))))
        e

  module _ (keeps : KeepsTokens) (start : State F) where
    -- The table and what is known are as at the start.
    pub record Agrees (s : State F) : Type 0 where
      pub same_tokens : s.db.tokens ≡ start.db.tokens
      pub same_known : (token : ℕ) → known s.tokens s.db token ≡ known start.tokens start.db token

    abbrev pub expected : ℕ → Option (ℕ × ℕ)
    expected = known start.tokens start.db

    -- The metrics since the start.
    abbrev pub Counted : List (ℕ × F) → State F → Type 0
    Counted done s = Agrees s × (s.metrics ≡ start.metrics ++ done)

    module _ (all : List (ℕ × F)) where
      -- The metrics count the beginning of `all`.
      abbrev pub Stopped : State F → Type 0
      Stopped s =
          (done rest : List (ℕ × F)) × ((all ≡ done ++ rest) × (s.metrics ≡ start.metrics ++ done))

      abbrev pub Missing : ℕ → List (ℕ × F) → State F → Type 0
      Missing token done s = Counted done s × (get token s.tokens ≡ none)

      module _ (done rest : List (ℕ × F)) (e : all ≡ done ++ rest) where
        stop : (s : State F) → Counted done s → Stopped s
        stop s c = (done, rest, (e, c.1))

        pub cached-hit :
            (token : ℕ)
            → Triple
                (Counted done)
                (cached token)
                (λ hit s. Counted done s × (get token s.tokens ≡ hit))
                Stopped
        unfolding cached
        cached-hit token = record { at = λ s c. (c, refl) }

        Post-query :
            (fails : Bool) (token : ℕ) (seen : Db) (s : State F)
            → Counted done s
            → get token s.tokens ≡ none
            → seen.tokens ≡ s.db.tokens
            → Post
                (Given (Missing token done) (λ d. d ≡ expected token))
                Stopped
                (run_query fails (token_decimals_and_l1_address env.scan seen token) seen s)
        Post-query true token seen s c m f = stop s c
        Post-query false token seen s (a, c) m f = (
          (
            (
              record {
                same_tokens = f ∙ a.same_tokens;
                same_known = λ t.
                    ap (first_of (get t s.tokens)) (lookup-tokens seen s.db t f) ∙ a.same_known t;
              },
              c,
            ),
            m,
          ),
          lookup-tokens seen s.db token f
              ∙ sym (ap (λ o. first_of o (token_decimals_and_l1_address env.scan s.db token)) m)
              ∙ a.same_known token,
        )

        query-known :
            (token : ℕ)
            → Triple
                (λ s. Counted done s × (get token s.tokens ≡ none))
                (query env (λ db. token_decimals_and_l1_address env.scan db token))
                (Given (Missing token done) (λ d. d ≡ expected token))
                Stopped
        unfolding query
        query-known token = record {
          at = λ s (c, m).
              Post-query (env.connection_fails s.calls) token (env.others s.calls s.db) s c m
                (keeps s.calls s.db);
        }

        inserted :
            (token t : ℕ) (d : ℕ × ℕ) (s : State F)
            → Missing token done s
            → expected token ≡ some d
            → known ((token, d) ∷ s.tokens) s.db t ≡ expected t
        inserted token t d s m f = elim (Bool-cases (token == t)) [
          | inl g ↦ rw g (sym f ∙ ap expected ((==_iff token t).0 g))
          | inr g ↦ rw g (m.0.0.same_known t)
        ]

        remember-Counted :
            (token : ℕ) (d : Option (ℕ × ℕ))
            → d ≡ expected token
            → Triple
                (Missing token done)
                (remember env token d)
                (Given (Counted done) (λ o. o ≡ expected token))
                Stopped
        unfolding insert
        remember-Counted token none f = Triple-pure none (λ s m. (m.0, f))
        remember-Counted token (some d) f =
            Triple-bind {Q = λ t s. Counted done s} (insert token d) _
              record {
                at = λ s m. (
                  record {
                    same_tokens = m.0.0.same_tokens;
                    same_known = λ t. inserted token t d s m (sym f);
                  },
                  m.0.1,
                );
              }
              (λ t. Triple-pure _ (λ s c. (c, f)))

        pub if_missing-Counted :
            (token : ℕ) (hit : Option (ℕ × ℕ))
            → Triple
                (λ s. Counted done s × (get token s.tokens ≡ hit))
                (if_missing env token hit)
                (Given (Counted done) (λ o. o ≡ expected token))
                Stopped
        if_missing-Counted token (some d) = Triple-pure _ (λ s (c, h). (
          c,
          sym (ap (λ o. first_of o (token_decimals_and_l1_address env.scan s.db token)) h)
              ∙ c.0.same_known token,
        ))
        if_missing-Counted token none =
            Triple-bind_given _ _ (query-known token) (λ d f. remember-Counted token d f)
