-- ===== src/Finalizer/Params/Requests.antt =====
-- finalizer/src/lib.rs: what `request_finalize_params` keeps of the answers.
use zksync_withdrawal_finali.Common.{
  arith, ℕ, ◌+◌, ◌≡◌, refl, sym, ap, ◌∙◌, ◌⊎◌, inl, inr, Bool, true, false, Option, none, some,
  List, [], ◌∷◌, All, Outcome, ok, err, panic,
}
use zksync_withdrawal_finali.Common.Actions.Hoare.{
  Post, Triple, Triple-bind, Triple-bind_given, Triple-pure, Triple-imp, Given,
}
use zksync_withdrawal_finali.Client.{WithdrawalParams}
use zksync_withdrawal_finali.Client.Errors.{
  ClientError, abi_error, contract_abi_error, provider_error, encode_packed_error, contract_error,
  client_middleware, channel_closed, withdrawal_log_not_found, failed_to_decode_log,
  withdrawal_initiated_filter_not_found, l2_to_l1_with_value_not_found, l1_message_sent_not_found,
  message_not_rlp_bytes, l2_token_unknown,
}
use zksync_withdrawal_finali.Storage.Tables.{Db}
use zksync_withdrawal_finali.Finalizer.World.{Env, State}
use zksync_withdrawal_finali.Finalizer.Monad.{
  pure, call, statement, run_statement, ignore_error, forget,
}
use zksync_withdrawal_finali.Finalizer.Params.{
  ParamsRequest, with_id, ask_all, on_failed_request, keep_results, request_finalize_params,
}

-- The node answers each request for parameters with them or with an error.
abbrev pub AlwaysAnswers : Env → Type 0
AlwaysAnswers env =
    (n tx_hash index : ℕ)
    → ((r : WithdrawalParams) × (env.finalize_withdrawal_params n tx_hash index ≡ ok (some r)))
      ⊎ ((e : ClientError) × (env.finalize_withdrawal_params n tx_hash index ≡ err e))

abbrev pub keep :
    ℕ
    → Outcome ClientError (Option WithdrawalParams)
    → List WithdrawalParams
    → List WithdrawalParams
keep id (ok (some r)) rest = record r { id = id } ∷ rest
keep id (ok none) rest = rest
keep id (err e) rest = rest
keep id panic rest = rest

-- The parameters that the node answers, with the ids of their requests, the first of which is the
-- call `n`.
abbrev pub answered : Env → ℕ → List ParamsRequest → List WithdrawalParams
answered env n [] = []
answered env n ((tx_hash, index, id) ∷ requests) =
    keep id (env.finalize_withdrawal_params n tx_hash index) (answered env (n + 1) requests)

abbrev IsAnswer : Outcome ClientError WithdrawalParams → Type 0
IsAnswer (ok r) = Unit
IsAnswer (err e) = Unit
IsAnswer panic = ⊥

abbrev values : List (Outcome ClientError WithdrawalParams) → List WithdrawalParams
values [] = []
values (ok r ∷ os) = r ∷ values os
values (err e ∷ os) = values os
values (panic ∷ os) = values os

abbrev Never : State → Type 0
Never s = ⊥

module _ (env : Env) (answers : AlwaysAnswers env) where
  ignored :
      (fails : Bool) (seen db : Db) (s : State)
      → let (r, s') = run_statement fails seen tt db s in
        Post (λ t u. Unit {0}) Never (forget r, s')
  ignored true seen db s = tt
  ignored false seen db s = tt

  on_failed_request-returns :
      (e : ClientError) → Triple (λ s. Unit {0}) (on_failed_request env e) (λ t s. Unit {0}) Never
  unfolding on_failed_request ignore_error statement pure
  on_failed_request-returns (withdrawal_log_not_found i h) = record {
    at = λ s p. ignored (env.connection_fails s.calls) (env.others s.calls s.db) _ s;
  }
  on_failed_request-returns (abi_error t) = record { at = λ s p. tt }
  on_failed_request-returns (contract_abi_error t) = record { at = λ s p. tt }
  on_failed_request-returns (provider_error t) = record { at = λ s p. tt }
  on_failed_request-returns (encode_packed_error t) = record { at = λ s p. tt }
  on_failed_request-returns (contract_error t) = record { at = λ s p. tt }
  on_failed_request-returns (client_middleware t) = record { at = λ s p. tt }
  on_failed_request-returns channel_closed = record { at = λ s p. tt }
  on_failed_request-returns failed_to_decode_log = record { at = λ s p. tt }
  on_failed_request-returns (withdrawal_initiated_filter_not_found h i) = record { at = λ s p. tt }
  on_failed_request-returns (l2_to_l1_with_value_not_found h v) = record { at = λ s p. tt }
  on_failed_request-returns (l1_message_sent_not_found h i) = record { at = λ s p. tt }
  on_failed_request-returns (message_not_rlp_bytes t) = record { at = λ s p. tt }
  on_failed_request-returns (l2_token_unknown a) = record { at = λ s p. tt }

  keep_results-values :
      (results : List (Outcome ClientError WithdrawalParams))
      → All IsAnswer results
      → Triple (λ s. Unit {0}) (keep_results env results) (λ kept s. kept ≡ values results) Never
  unfolding keep_results
  keep_results-values [] a = Triple-pure [] (λ s p. refl)
  keep_results-values (ok r ∷ results) a =
      Triple-bind _ _ (keep_results-values results a.1)
        (λ rest. Triple-pure _ (λ s e. ap (λ l. r ∷ l) e))
  keep_results-values (err e ∷ results) a =
      Triple-bind _ _ (on_failed_request-returns e) (λ t. keep_results-values results a.1)
  keep_results-values (panic ∷ results) a = absurd a.0

  -- The next call is `n`.
  abbrev AtCall : ℕ → State → Type 0
  AtCall n s = s.calls ≡ n

  abbrev IsAnswerOf : ℕ → ℕ → ℕ → ℕ → Outcome ClientError WithdrawalParams → Type 0
  IsAnswerOf n tx_hash index id o =
      IsAnswer o
      × ((os : List (Outcome ClientError WithdrawalParams))
          → values (o ∷ os) ≡ keep id (env.finalize_withdrawal_params n tx_hash index) (values os))

  ask-one :
      (n tx_hash index id : ℕ)
      → Triple
          (AtCall n)
          (call (λ n. with_id id (env.finalize_withdrawal_params n tx_hash index)))
          (Given (AtCall (n + 1)) (IsAnswerOf n tx_hash index id))
          Never
  unfolding call
  ask-one n tx_hash index id = record {
    at = λ s e. elim (answers n tx_hash index) [
      | inl (r, f) ↦ rw (e, f) ((omega arith), (tt, λ os. ap (λ o. keep id o (values os)) (sym f)))
      | inr (x, f) ↦ rw (e, f) ((omega arith), (tt, λ os. ap (λ o. keep id o (values os)) (sym f)))
    ];
  }

  ask_all-answered :
      (n : ℕ) (requests : List ParamsRequest)
      → Triple
          (AtCall n)
          (ask_all env requests)
          (Given (λ s. Unit {0}) (λ os. All IsAnswer os × (values os ≡ answered env n requests)))
          Never
  unfolding ask_all
  ask_all-answered n [] = Triple-pure [] (λ s p. (tt, (tt, refl)))
  ask_all-answered n ((tx_hash, index, id) ∷ requests) =
      Triple-bind_given _ _ (ask-one n tx_hash index id) (λ o h.
        Triple-bind_given _ _ (ask_all-answered (n + 1) requests) (λ os k. Triple-pure _ (λ s p. (
          tt,
          ((h.0, k.0), h.1 os ∙ ap (keep id (env.finalize_withdrawal_params n tx_hash index)) k.1),
        ))))

-- If the node answers each request with parameters or an error, `request_finalize_params` returns,
-- whatever the database does, exactly the parameters that were answered, in the order of the
-- requests and each with the id of its own: an error costs no other request its answer.
pub request_finalize_params-answered :
    (env : Env)
    → AlwaysAnswers env
    → (requests : List ParamsRequest) (s : State)
    → Post
        (λ params u. params ≡ answered env s.calls requests)
        (λ u. ⊥)
        (request_finalize_params env requests s)
unfolding request_finalize_params
request_finalize_params-answered env answers requests s =
    (Triple-bind_given _ _ (ask_all-answered env answers s.calls requests) (λ os h.
        Triple-imp (λ u p. p) (λ params u e. e ∙ h.1) (λ u r. r)
          (keep_results-values env answers os h.0))).at
      s refl
