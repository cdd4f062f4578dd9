-- ===== src/Watcher/Withdrawals/Numbering.antt =====
-- watcher/src/lib.rs: the withdrawals of a stream with their numbers, whatever the blocks.
use mathlib.Core.List.{append_assoc}
use zksync_withdrawal_finali.Common.{ℕ, ◌≡◌, refl, sym, ap, ◌∙◌, List, [], ◌∷◌, ◌++◌}
use zksync_withdrawal_finali.Client.{WithdrawalEvent}
use zksync_withdrawal_finali.Storage.Withdrawals.{StoredWithdrawal}
use zksync_withdrawal_finali.Watcher.World.{Action, wrote, metered, stored, stored_token}
use zksync_withdrawal_finali.Watcher.Withdrawals.{
  L2Event, restarted_from_block, withdrawal, l2_token_init_event, stored_withdrawals,
}
use zksync_withdrawal_finali.Watcher.Withdrawals.Groups.{IsOther, stored_withdrawals-append}

-- All withdrawals that were stored, in order.
abbrev pub stored_of : List Action → List StoredWithdrawal
stored_of [] = []
stored_of (stored found ∷ t) = found ++ stored_of t
stored_of (wrote params ∷ t) = stored_of t
stored_of (metered found ∷ t) = stored_of t
stored_of (stored_token token ∷ t) = stored_of t

-- The withdrawals of a stream, numbered within their transactions from one restart to the next;
-- blocks play no part. `seen` are those since the last restart.
abbrev pub numbered_after : List WithdrawalEvent → List L2Event → List StoredWithdrawal
numbered_after seen [] = stored_withdrawals seen
numbered_after seen (withdrawal e ∷ es) = numbered_after (seen ++ e ∷ []) es
numbered_after seen (l2_token_init_event token ∷ es) = numbered_after seen es
numbered_after seen (restarted_from_block n ∷ es) = stored_withdrawals seen ++ numbered_after [] es

abbrev pub numbered : List L2Event → List StoredWithdrawal
numbered events = numbered_after [] events

-- The withdrawals after the last restart.
abbrev pub last_after : List WithdrawalEvent → List L2Event → List WithdrawalEvent
last_after seen [] = seen
last_after seen (withdrawal e ∷ es) = last_after (seen ++ e ∷ []) es
last_after seen (l2_token_init_event token ∷ es) = last_after seen es
last_after seen (restarted_from_block n ∷ es) = last_after [] es

-- A transaction is in one block.
abbrev pub InBlocks : (ℕ → ℕ) → List L2Event → Type 0
InBlocks block_of [] = Unit
InBlocks block_of (withdrawal e ∷ es) = (e.block_number ≡ block_of e.tx_hash) × InBlocks block_of es
InBlocks block_of (l2_token_init_event token ∷ es) = InBlocks block_of es
InBlocks block_of (restarted_from_block n ∷ es) = InBlocks block_of es

pub stored_of-append : (t u : List Action) → stored_of (t ++ u) ≡ stored_of t ++ stored_of u
stored_of-append [] u = refl
stored_of-append (stored found ∷ t) u =
    ap (λ l. found ++ l) (stored_of-append t u)
    ∙ sym (append_assoc found (stored_of t) (stored_of u))
stored_of-append (wrote params ∷ t) u = stored_of-append t u
stored_of-append (metered found ∷ t) u = stored_of-append t u
stored_of-append (stored_token token ∷ t) u = stored_of-append t u

-- A flush before a withdrawal of another transaction changes nothing.
pub numbered_after-split :
    (xs : List WithdrawalEvent) (e : WithdrawalEvent) (ys : List WithdrawalEvent)
    (es : List L2Event)
    → IsOther e.tx_hash xs
    → numbered_after (xs ++ e ∷ ys) es ≡ stored_withdrawals xs ++ numbered_after (e ∷ ys) es
numbered_after-split xs e ys [] o = stored_withdrawals-append xs e ys o
numbered_after-split xs e ys (withdrawal f ∷ es) o =
    ap (λ l. numbered_after l es) (append_assoc xs (e ∷ ys) (f ∷ []))
    ∙ numbered_after-split xs e (ys ++ f ∷ []) es o
numbered_after-split xs e ys (l2_token_init_event token ∷ es) o = numbered_after-split xs e ys es o
numbered_after-split xs e ys (restarted_from_block n ∷ es) o =
    ap (λ l. l ++ numbered_after [] es) (stored_withdrawals-append xs e ys o)
    ∙ append_assoc (stored_withdrawals xs) (stored_withdrawals (e ∷ ys)) (numbered_after [] es)
