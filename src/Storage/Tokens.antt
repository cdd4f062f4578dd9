-- ===== src/Storage/Tokens.antt =====
-- storage/src/lib.rs: the statements over `tokens`.
pub mod Lookup
use mathlib.Core.Option
use Prim.Native.String.{String}
use zksync_withdrawal_finali.Common.{
  ℕ, ◌+◌, Bool, ◌&&◌, Option, none, some, List, [], ◌∷◌, ◌++◌, map, filter, any, ◌==◌, unwrap_or,
  if◌then◌else◌,
}
use zksync_withdrawal_finali.Storage.Tables.{Db, TokenRow, max_of}
use zksync_withdrawal_finali.Storage.Withdrawals.{Scan}

-- chain-events/src/lib.rs
pub record L2TokenInitEvent : Type 0 where
  pub l1_token_address : ℕ
  pub l2_token_address : ℕ
  pub name : String
  pub symbol : String
  pub decimals : ℕ
  pub l2_block_number : ℕ
  pub initialization_transaction : ℕ

unfoldable pub get_tokens : Scan TokenRow → Db → List ℕ × ℕ
get_tokens scan db = (
  map (λ r. r.l2_token_address) (scan.arrange db.tokens),
  unwrap_or (max_of (map (λ r. r.l2_block_number) db.tokens)) 1,
)

abbrev pub is_token : L2TokenInitEvent → TokenRow → Bool
is_token token r =
    r.l1_token_address == token.l1_token_address && r.l2_token_address == token.l2_token_address

abbrev pub token_row : L2TokenInitEvent → TokenRow
token_row token = record {
  l1_token_address = token.l1_token_address;
  l2_token_address = token.l2_token_address;
  name = token.name;
  symbol = token.symbol;
  decimals = token.decimals;
  l2_block_number = token.l2_block_number;
  initialization_transaction = token.initialization_transaction;
}

-- INSERT … ON CONFLICT (l1_token_address, l2_token_address) DO NOTHING.
unfoldable pub add_token : Db → L2TokenInitEvent → Db
add_token db token = record db {
  tokens = if any (is_token token) db.tokens then db.tokens else db.tokens ++ token_row token ∷ [];
}

abbrev pub first_row {ℓ} : {A : Type ℓ} → List A → Option A
first_row [] = none
first_row (row ∷ rows) = some row

abbrev pub decimals_and_address : TokenRow → ℕ × ℕ
decimals_and_address r = (r.decimals, r.l1_token_address)

-- The first row that the server finds: decimals and L1 address.
unfoldable pub token_decimals_and_l1_address : Scan TokenRow → Db → ℕ → Option (ℕ × ℕ)
token_decimals_and_l1_address scan db token =
    Option.map decimals_and_address
      (first_row (scan.arrange (filter (λ r. r.l2_token_address == token) db.tokens)))
