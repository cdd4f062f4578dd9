-- ===== src/ChainEvents/Withdrawals/Pagination.antt =====
-- chain-events/src/l2_events.rs: the step of the pagination.
use zksync_withdrawal_finali.Common.{
  arith, ℕ, zero, suc, ◌+◌, ◌/◌, ◌≤◌, ◌≡◌, ltb, Bool-cases, inl, inr, Bool, true, false, List,
  Outcome, ok, err, panic,
}
use zksync_withdrawal_finali.Common.Actions.Hoare.{
  Post, Given, Triple-bind_given, Triple-any, Triple, Triple-bind, Triple-pure,
}
use zksync_withdrawal_finali.ChainEvents.World.{Error}
use zksync_withdrawal_finali.ChainEvents.Withdrawals.{
  RunResult, pagination_too_large, attempt_pagination_increase, other_error, next_pagination, Abi,
  Env, State,
}
use zksync_withdrawal_finali.ChainEvents.Withdrawals.Run.{
  Resume, resume, run_if_connected, rounds, run_with_reconnects,
}

abbrev pub InRange : ℕ → Type 0
InRange step = (1 ≤ step) × (step ≤ 10000)

half-InRange : (p : ℕ) → ltb 2 p ≡ true → InRange p → InRange (p / 2)
half-InRange p t r = (ground arith, ground arith)

next_pagination-InRange :
    (p : ℕ) (reason : RunResult) → InRange p → InRange (next_pagination p reason)
next_pagination-InRange p pagination_too_large r = elim (Bool-cases (ltb 2 p)) [
  | inl t ↦ rw t (half-InRange p t r)
  | inr t ↦ rw t r
]
next_pagination-InRange p attempt_pagination_increase r = elim (Bool-cases (ltb (p + 256) 10000)) [
  | inl t ↦ rw t (ground arith, ground arith)
  | inr t ↦ rw t r
]
next_pagination-InRange p other_error r = r

resume-InRange :
    (r : Resume) (result : Outcome Error (ℕ × RunResult))
    → InRange r.pagination
    → InRange (resume r result).pagination
resume-InRange r (ok (block, reason)) h = next_pagination-InRange r.pagination reason h
resume-InRange r (err e) h = h
resume-InRange r panic h = h

abbrev Any : State → Type 0
Any s = Unit

module _ (abi : Abi) (env : Env) (deployers : List ℕ) where
  run_if_connected-InRange :
      (r : Resume) (connected : Bool)
      → InRange r.pagination
      → Triple Any
          (run_if_connected abi env deployers r connected)
          (Given Any (λ next. InRange next.pagination))
          Any
  run_if_connected-InRange r false h = Triple-pure r (λ s u. (tt, h))
  run_if_connected-InRange r true h = Triple-bind {Q = λ result. Any} _ _ (Triple-any _) (λ result.
      Triple-bind {Q = λ t. Any} _ _ (Triple-any _)
        (λ t. Triple-pure (resume r result) (λ s u. (tt, resume-InRange r result h))))

  rounds-InRange :
      (n : ℕ) (r : Resume)
      → InRange r.pagination
      → Triple Any (rounds abi env deployers n r) (λ next s. InRange next.pagination) Any
  unfolding rounds
  rounds-InRange zero r h = Triple-pure r (λ s u. h)
  rounds-InRange (suc n) r h = Triple-bind {Q = λ c. Any} _ _ (Triple-any _) (λ connected.
      Triple-bind_given _ _ (run_if_connected-InRange r connected h) (rounds-InRange n))

  -- After any number of rounds the pagination is between 1 and 10000 blocks, whatever the node
  -- answers.
  pub run_with_reconnects-InRange :
      (n first last_token : ℕ) (s : State)
      → Post
          (λ next u. InRange next.pagination)
          (λ u. Unit {0})
          (run_with_reconnects abi env deployers n first last_token s)
  unfolding run_with_reconnects
  run_with_reconnects-InRange n first last_token s =
      (rounds-InRange n _ (ground arith, ground arith)).at s tt
