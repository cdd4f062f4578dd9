-- ===== src/Storage/Tokens/Lookup.antt =====
-- storage/src/lib.rs: a token that was added is found.
use mathlib.Core.List.{Perm, mem-cons, mem-cons_self, not-mem-nil}
use mathlib.Core.List.Perm
use mathlib.Core.Option
use mathlib.Core.Logic.Or
use zksync_withdrawal_finali.Common.{
  ℕ, ◌≡◌, refl, ap, Bool, true, false, Option, some, List, [], ◌∷◌, ◌++◌, any, filter, arith, ◌==◌,
  ==_iff,
}
use zksync_withdrawal_finali.Common.Membership.{length-perm}
use zksync_withdrawal_finali.Storage.Tables.{Db, TokenRow}
use zksync_withdrawal_finali.Storage.Withdrawals.{Scan}
use zksync_withdrawal_finali.Storage.Tokens.{
  L2TokenInitEvent, is_token, token_row, first_row, decimals_and_address, add_token,
  token_decimals_and_l1_address,
}

is_token-false :
    (token : L2TokenInitEvent) (rows : List TokenRow)
    → any (λ r. r.l2_token_address == token.l2_token_address) rows ≡ false
    → any (is_token token) rows ≡ false
is_token-false token [] h = refl
is_token-false token (r ∷ rs) h = ground (arith, is_token-false token rs)

filter-snoc :
    (p : TokenRow → Bool) (rows : List TokenRow) (r : TokenRow)
    → any p rows ≡ false
    → p r ≡ true
    → filter p (rows ++ r ∷ []) ≡ r ∷ []
filter-snoc p [] r h k = rw k refl
filter-snoc p (q ∷ qs) r h k = ground (arith, filter-snoc p qs r)

summary-set : IsSet (Option (ℕ × ℕ))
summary-set = hlevel

first_row-perm :
    (arranged : List TokenRow) (r : TokenRow)
    → Perm arranged (r ∷ [])
    → Option.map decimals_and_address (first_row arranged) ≡ some (decimals_and_address r)
first_row-perm [] r perm = absurd (omega (arith, length-perm perm))
first_row-perm (q ∷ qs) r perm =
    Or.elim (summary-set _ _) (mem-cons.0 ((Perm.mem_iff perm).0 mem-cons_self))
      (λ e. ap (λ x. some (decimals_and_address x)) e) (λ m. absurd (not-mem-nil m))

-- A token whose L2 address no row has is found by that address after it was added, whatever the
-- scan order, with its own decimals and L1 address.
pub token_decimals_and_l1_address-add_token :
    (scan : Scan TokenRow) (db : Db) (token : L2TokenInitEvent)
    → any (λ r. r.l2_token_address == token.l2_token_address) db.tokens ≡ false
    → token_decimals_and_l1_address scan (add_token db token) token.l2_token_address
      ≡ some (token.decimals, token.l1_token_address)
unfolding token_decimals_and_l1_address add_token
token_decimals_and_l1_address-add_token scan db token absent =
    let is_here = λ (r : TokenRow). r.l2_token_address == token.l2_token_address in
    let found : filter is_here (db.tokens ++ token_row token ∷ []) ≡ token_row token ∷ [] =
      filter-snoc is_here db.tokens (token_row token) absent ((==_iff _ _).1 refl) in
    rw (is_token-false token db.tokens absent, found)
      (first_row-perm (scan.arrange (token_row token ∷ [])) (token_row token)
        (scan.arrange_perm (token_row token ∷ [])))
