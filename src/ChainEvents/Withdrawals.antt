-- ===== src/ChainEvents/Withdrawals.antt =====
-- chain-events/src/l2_events.rs: the listener for the events of L2.
pub mod Deployments
pub mod Run
pub mod Keeping
pub mod Pagination
pub mod Covering
pub mod Reading
pub mod Rounds
pub mod Stored
use Prim.Native.String.{String}
use zksync_withdrawal_finali.Common.{
  ℕ, zero, suc, ◌+◌, ◌/◌, ◌<◌, Bool, true, false, not, ◌&&◌, ◌||◌, Option, none, some, List, [],
  ◌∷◌, ◌++◌, any, ◌==◌, ltb, leb, if◌then◌else◌, Outcome, ok, err, panic, expect, contains,
  unwrap_or,
}
use zksync_withdrawal_finali.Common.Actions.{Stateful, pure, lift, ◌>>=◌, ◌>>◌, attempt}
use zksync_withdrawal_finali.Client.{WithdrawalEvent, eth_token_address, eth_address}
use zksync_withdrawal_finali.Client.Types
use zksync_withdrawal_finali.Client.Types.{RawLog, Log, TransactionReceipt}
use zksync_withdrawal_finali.Client.Node.{nth, nth_where}
use zksync_withdrawal_finali.Client.Node.Messages.{first_topic_is}
use zksync_withdrawal_finali.Storage.Tokens.{L2TokenInitEvent}
use zksync_withdrawal_finali.Watcher.Withdrawals.{
  L2Event, withdrawal, l2_token_init_event, restarted_from_block,
}
use zksync_withdrawal_finali.ChainEvents.World.{
  Error, channel_closing, EthLog, raw_log, LogQueryError, rpc_query_too_large,
}

abbrev pub deployer_address : ℕ
deployer_address = 0x8006

abbrev pub pagination_step : ℕ
pagination_step = 10000

abbrev pub pagination_increase_step : ℕ
pagination_increase_step = 256

abbrev pub successful_logs_to_upscale : ℕ
successful_logs_to_upscale = 11000

-- The fields that are read of the generated filters.
pub data L2Events : Type 0 where
  bridge_burn withdrawn : ℕ → L2Events
  contract_deployed : L2Events

pub record BridgeInit : Type 0 where
  pub l_1_token : ℕ
  pub name : String
  pub symbol : String
  pub decimals : ℕ

pub data RunResult : Type 0 where
  pagination_too_large attempt_pagination_increase other_error : RunResult

-- Generated code: the decoding of logs, and signatures. Both events of an initialization have the
-- same fields.
pub record Abi : Type 0 where
  pub decode_log : RawLog → Option L2Events
  pub decode_bridge_init : RawLog → Option BridgeInit
  pub bridge_initialize_signature : ℕ
  pub bridge_initialization_signature : ℕ

-- The answers from outside, by the number of the call: as for the listener on L1. The streams are
-- asked for with the addresses of tokens and the step of the pagination.
pub record Env : Type 0 where
  pub connects : ℕ → Bool
  pub latest_block : ℕ → Outcome Error (Option (Option ℕ))
  pub deployments : ℕ → ℕ → ℕ → List ℕ → Outcome Error (List EthLog)
  pub subscribe_logs : ℕ → ℕ → List ℕ → Outcome Error (Unit {0})
  pub logs : ℕ → ℕ → ℕ → List ℕ → ℕ → List (Outcome LogQueryError EthLog)
  pub zks_get_transaction_receipt : ℕ → ℕ → Outcome Error TransactionReceipt
  pub closed : ℕ → Bool

-- `tokens` is a set: no address is in it twice. `sent` has the first event first.
pub record State : Type 0 where
  pub calls : ℕ
  pub tokens : List ℕ
  pub sent : List L2Event

abbrev pub M : Type 0 → Type 0
M A = Stateful State Error A

abbrev pub with_token : ℕ → List ℕ → List ℕ
with_token address tokens = if contains address tokens then tokens else tokens ++ address ∷ []

-- The tokens of `L2EventsListener::new`.
unfoldable pub new_tokens : List ℕ → Bool → List ℕ
new_tokens tokens finalize_eth_token = with_token deployer_address (
    if finalize_eth_token
    then with_token eth_address (with_token eth_token_address tokens)
    else tokens)

unfoldable pub call : {A : Type 0} → (ℕ → Outcome Error A) → M A
call answer s = (answer s.calls, record s { calls = suc s.calls })

unfoldable pub get_tokens : M (List ℕ)
get_tokens s = (ok s.tokens, s)

-- `HashSet::insert`: whether the address is new.
unfoldable pub insert_token : ℕ → M Bool
insert_token address s =
    (ok (not (contains address s.tokens)), record s { tokens = with_token address s.tokens })

abbrev pub run_send : Bool → L2Event → State → Outcome Error (Unit {0}) × State
run_send true event s = (err channel_closing, record s { calls = suc s.calls })
run_send false event s = (ok tt, record s { calls = suc s.calls; sent = s.sent ++ event ∷ [] })

abbrev pub should_attempt_pagination_increase : ℕ → ℕ → Bool
should_attempt_pagination_increase step successful_logs =
    ltb step pagination_step && ltb successful_logs_to_upscale successful_logs

-- The step after a run.
abbrev pub next_pagination : ℕ → RunResult → ℕ
next_pagination pagination pagination_too_large =
    if ltb 2 pagination then pagination / 2 else pagination
next_pagination pagination attempt_pagination_increase =
    if ltb (pagination + pagination_increase_step) pagination_step
    then pagination + pagination_increase_step
    else pagination
next_pagination pagination other_error = pagination

unfoldable pub send : Env → L2Event → M (Unit {0})
send env event s = run_send (env.closed s.calls) event s
