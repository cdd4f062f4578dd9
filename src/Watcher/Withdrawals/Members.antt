-- ===== src/Watcher/Withdrawals/Members.antt =====
-- watcher/src/lib.rs: numbering the withdrawals of a stream leaves none out.
use mathlib.Core.List.{Mem, mem-append_left, mem-append_right, mem-cons, not-mem-nil, map}
use mathlib.Core.Logic.Or
use mathlib.Core.Logic.{∥∥₁_prop}
use zksync_withdrawal_finali.Common.{
  ℕ, ◌+◌, ◌≡◌, refl, sym, ap, ◌∙◌, subst, ◌==◌, Bool-cases, inl, inr, List, [], ◌∷◌, ◌++◌,
}
use zksync_withdrawal_finali.Client.{WithdrawalEvent}
use zksync_withdrawal_finali.Storage.Withdrawals.{StoredWithdrawal}
use zksync_withdrawal_finali.Watcher.Withdrawals.{
  L2Event, restarted_from_block, withdrawal, l2_token_init_event, add_to_groups, group_by_tx,
  enumerate, enumerate_groups, stored_withdrawals,
}
use zksync_withdrawal_finali.Watcher.Withdrawals.Numbering.{numbered_after}

abbrev pub events : List StoredWithdrawal → List WithdrawalEvent
events rows = map (λ row. row.event) rows

abbrev concat : List (List WithdrawalEvent) → List WithdrawalEvent
concat [] = []
concat (group ∷ groups) = group ++ concat groups

events-enumerate : (index : ℕ) (es : List WithdrawalEvent) → events (enumerate index es) ≡ es
events-enumerate index [] = refl
events-enumerate index (e ∷ es) = ap (λ l. e ∷ l) (events-enumerate (index + 1) es)

pub events-append : (xs ys : List StoredWithdrawal) → events (xs ++ ys) ≡ events xs ++ events ys
events-append [] ys = refl
events-append (x ∷ xs) ys = ap (λ l. x.event ∷ l) (events-append xs ys)

events-enumerate_groups :
    (groups : List (List WithdrawalEvent)) → events (enumerate_groups groups) ≡ concat groups
unfolding enumerate_groups
events-enumerate_groups [] = refl
events-enumerate_groups (group ∷ groups) =
    events-append (enumerate 0 group) (enumerate_groups groups)
    ∙ ap (λ l. l ++ events (enumerate_groups groups)) (events-enumerate 0 group)
    ∙ ap (λ l. group ++ l) (events-enumerate_groups groups)

concat-add_to_groups :
    (e : WithdrawalEvent) (groups : List (List WithdrawalEvent))
    → concat (add_to_groups e groups) ≡ e ∷ concat groups
unfolding add_to_groups
concat-add_to_groups e [] = refl
concat-add_to_groups e ([] ∷ groups) = refl
concat-add_to_groups e ((f ∷ fs) ∷ groups) = elim (Bool-cases (f.tx_hash == e.tx_hash)) [
  | inl t ↦ rw t refl
  | inr t ↦ rw t refl
]

concat-group_by_tx : (es : List WithdrawalEvent) → concat (group_by_tx es) ≡ es
unfolding group_by_tx
concat-group_by_tx [] = refl
concat-group_by_tx (e ∷ es) =
    concat-add_to_groups e (group_by_tx es) ∙ ap (λ l. e ∷ l) (concat-group_by_tx es)

events-stored_withdrawals : (es : List WithdrawalEvent) → events (stored_withdrawals es) ≡ es
unfolding stored_withdrawals
events-stored_withdrawals es = events-enumerate_groups (group_by_tx es) ∙ concat-group_by_tx es

mem-numbered_seen :
    (w : WithdrawalEvent) (seen : List WithdrawalEvent) (es : List L2Event)
    → Mem w seen
    → Mem w (events (numbered_after seen es))
mem-numbered_seen w seen [] m = subst (λ l. Mem w l) (sym (events-stored_withdrawals seen)) m
mem-numbered_seen w seen (withdrawal e ∷ es) m =
    mem-numbered_seen w (seen ++ e ∷ []) es (mem-append_left (e ∷ []) m)
mem-numbered_seen w seen (l2_token_init_event token ∷ es) m = mem-numbered_seen w seen es m
mem-numbered_seen w seen (restarted_from_block n ∷ es) m =
    subst (λ l. Mem w l) (sym (events-append (stored_withdrawals seen) (numbered_after [] es)))
      (mem-append_left (events (numbered_after [] es))
        (subst (λ l. Mem w l) (sym (events-stored_withdrawals seen)) m))

pub mem-numbered :
    (w : WithdrawalEvent) (seen : List WithdrawalEvent) (es : List L2Event)
    → Mem (withdrawal w) es
    → Mem w (events (numbered_after seen es))
mem-numbered w seen [] m = absurd (not-mem-nil m)
mem-numbered w seen (withdrawal e ∷ es) m =
    Or.elim ∥∥₁_prop (mem-cons.0 m)
      (λ same.
        mem-numbered_seen w (seen ++ e ∷ []) es (mem-append_right seen (mem-cons.1 (Or.inl cc))))
      (mem-numbered w (seen ++ e ∷ []) es)
mem-numbered w seen (l2_token_init_event token ∷ es) m =
    Or.elim ∥∥₁_prop (mem-cons.0 m) (λ same. cc) (mem-numbered w seen es)
mem-numbered w seen (restarted_from_block n ∷ es) m =
    Or.elim ∥∥₁_prop (mem-cons.0 m) (λ same. cc)
      (λ later.
        subst (λ l. Mem w l) (sym (events-append (stored_withdrawals seen) (numbered_after [] es)))
          (mem-append_right (events (stored_withdrawals seen)) (mem-numbered w [] es later)))
