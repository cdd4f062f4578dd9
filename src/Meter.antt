-- ===== src/Meter.antt =====
-- withdrawals-meterer/src/lib.rs: the meter of the volume of withdrawals, with its cache of tokens.
pub mod Cache
pub mod Increments
use zksync_withdrawal_finali.Common.{
  ℕ, suc, Bool, true, false, Option, none, some, List, [], ◌∷◌, ◌++◌, ◌==◌, if◌then◌else◌, Outcome,
  ok, err,
}
use zksync_withdrawal_finali.Common.Actions.{Stateful, pure, ◌>>=◌, ◌>>◌}
use zksync_withdrawal_finali.Client.{eth_token_address, eth_address}
use zksync_withdrawal_finali.Storage.Tables.{Db, TokenRow}
use zksync_withdrawal_finali.Storage.Tokens.{token_decimals_and_l1_address}
use zksync_withdrawal_finali.Storage.Withdrawals.{Scan, StoredWithdrawal, get_withdrawals}

-- The query failed; no constraint is involved.
pub data Error : Type 0 where
  connection_lost : Error

-- By L2 address, the decimals and the L1 address. The entry inserted last stands first.
abbrev pub Tokens : Type 0
Tokens = List (ℕ × (ℕ × ℕ))

abbrev pub get : ℕ → Tokens → Option (ℕ × ℕ)
get token [] = none
get token (entry ∷ entries) = if entry.0 == token then some entry.1 else get token entries

-- `WithdrawalsMeter::new`
abbrev pub new_tokens : Tokens
new_tokens = (eth_token_address, (18, eth_address)) ∷ []

-- The amounts that the metrics count are of a type that the code does not choose; `format` is
-- `format_units` and the parsing of its result, `none` where one of them fails. `others` is what
-- other tasks did to the tables before the query.
pub record Env (F : Type 0) : Type 0 where
  pub scan : Scan TokenRow
  pub others : ℕ → Db → Db
  pub connection_fails : ℕ → Bool
  pub format : ℕ → ℕ → Option F

-- `metrics` are the increments, by L1 address, the first one first.
pub record State (F : Type 0) : Type 0 where
  pub db : Db
  pub calls : ℕ
  pub tokens : Tokens
  pub metrics : List (ℕ × F)

abbrev pub M : Type 0 → Type 0 → Type 0
M F A = Stateful (State F) Error A

module _ {F : Type 0} where
  unfoldable pub cached : ℕ → M F (Option (ℕ × ℕ))
  cached token s = (ok (get token s.tokens), s)

  unfoldable pub insert : ℕ → ℕ × ℕ → M F (Unit {0})
  insert token d s = (ok tt, record s { tokens = (token, d) ∷ s.tokens })

  unfoldable pub inc_by : ℕ → F → M F (Unit {0})
  inc_by address amount s = (ok tt, record s { metrics = s.metrics ++ (address, amount) ∷ [] })

  abbrev pub run_query : {A : Type 0} → Bool → A → Db → State F → Outcome Error A × State F
  run_query true a seen s = (err connection_lost, record s { db = seen; calls = suc s.calls })
  run_query false a seen s = (ok a, record s { db = seen; calls = suc s.calls })

  unfoldable pub query : {A : Type 0} → Env F → (Db → A) → M F A
  query env f s =
      let seen = env.others s.calls s.db in run_query (env.connection_fails s.calls) (f seen) seen s

  module _ (env : Env F) where
    -- A token that is not found is looked up the next time again.
    abbrev pub remember : ℕ → Option (ℕ × ℕ) → M F (Option (ℕ × ℕ))
    remember token none = pure none
    remember token (some d) = insert token d >> pure (some d)

    abbrev pub look_up : ℕ → M F (Option (ℕ × ℕ))
    look_up token = do
      found ← query env (λ db. token_decimals_and_l1_address env.scan db token)
      remember token found

    abbrev pub if_missing : ℕ → Option (ℕ × ℕ) → M F (Option (ℕ × ℕ))
    if_missing token (some d) = pure (some d)
    if_missing token none = look_up token

    abbrev pub count : ℕ → Option F → M F (Unit {0})
    count address none = pure tt
    count address (some amount) = inc_by address amount

    abbrev pub meter_amount : ℕ → Option (ℕ × ℕ) → M F (Unit {0})
    meter_amount amount none = pure tt
    meter_amount amount (some d) = count d.1 (env.format amount d.0)

    -- The body of the loop.
    unfoldable pub meter_withdrawal : StoredWithdrawal → M F (Unit {0})
    meter_withdrawal w = do
      hit ← cached w.event.token
      d ← if_missing w.event.token hit
      meter_amount w.event.amount d

    unfoldable pub meter_withdrawals : List StoredWithdrawal → M F (Unit {0})
    meter_withdrawals [] = pure tt
    meter_withdrawals (w ∷ ws) = do meter_withdrawal w; meter_withdrawals ws

    unfoldable pub meter_withdrawals_storage : List ℕ → M F (Unit {0})
    meter_withdrawals_storage ids = do
      withdrawals ← query env (λ db. get_withdrawals db ids)
      meter_withdrawals withdrawals
