-- ===== src/Watcher/Withdrawals/Groups.antt =====
-- watcher/src/lib.rs: the numbers that withdrawals get within their transaction.
use mathlib.Core.List.{append_assoc}
use zksync_withdrawal_finali.Common.{
  arith, ℕ, ◌≡◌, refl, sym, ap, ◌∙◌, false, ◌==◌, List, [], ◌∷◌, ◌++◌, All, Bool-cases, inl, inr,
}
use zksync_withdrawal_finali.Client.{WithdrawalEvent}
use zksync_withdrawal_finali.Watcher.Withdrawals.{
  add_to_groups, group_by_tx, enumerate, enumerate_groups, stored_withdrawals,
}

-- None of the events is of the transaction.
abbrev pub IsOther : ℕ → List WithdrawalEvent → Type 0
IsOther tx_hash = All (λ e. (e.tx_hash == tx_hash) ≡ false)

abbrev StartsWith : WithdrawalEvent → List (List WithdrawalEvent) → Type 0
StartsWith e groups =
    (g : List WithdrawalEvent) × ((gs : List (List WithdrawalEvent)) × (groups ≡ (e ∷ g) ∷ gs))

add_to_groups-StartsWith :
    (e : WithdrawalEvent) (groups : List (List WithdrawalEvent))
    → StartsWith e (add_to_groups e groups)
unfolding add_to_groups
add_to_groups-StartsWith e [] = ([], ([], refl))
add_to_groups-StartsWith e ([] ∷ groups) = ([], (groups, refl))
add_to_groups-StartsWith e ((f ∷ fs) ∷ groups) = elim (Bool-cases (f.tx_hash == e.tx_hash)) [
  | inl t ↦ (f ∷ fs, (groups, rw t refl))
  | inr t ↦ ([], ((f ∷ fs) ∷ groups, rw t refl))
]

add_to_groups-append :
    (e f : WithdrawalEvent) (g : List WithdrawalEvent) (gs hs : List (List WithdrawalEvent))
    → add_to_groups e ((f ∷ g) ∷ gs ++ hs) ≡ add_to_groups e ((f ∷ g) ∷ gs) ++ hs
unfolding add_to_groups
add_to_groups-append e f g gs hs = elim (Bool-cases (f.tx_hash == e.tx_hash)) [
  | inl t ↦ rw t refl
  | inr t ↦ rw t refl
]

add_to_groups-other :
    (x e : WithdrawalEvent) (g : List WithdrawalEvent) (gs : List (List WithdrawalEvent))
    → (x.tx_hash == e.tx_hash) ≡ false
    → add_to_groups x ((e ∷ g) ∷ gs) ≡ (x ∷ []) ∷ (e ∷ g) ∷ gs
unfolding add_to_groups
add_to_groups-other x e g gs o = ground arith

group_by_tx-append :
    (xs : List WithdrawalEvent) (e : WithdrawalEvent) (ys : List WithdrawalEvent)
    → IsOther e.tx_hash xs
    → group_by_tx (xs ++ e ∷ ys) ≡ group_by_tx xs ++ group_by_tx (e ∷ ys)
unfolding group_by_tx add_to_groups
group_by_tx-append [] e ys o = refl
group_by_tx-append (x ∷ []) e ys o =
    let (g, (gs, s)) = add_to_groups-StartsWith e (group_by_tx ys) in
    rw s (add_to_groups-other x e g gs o.0)
group_by_tx-append (x ∷ y ∷ xs) e ys o =
    let (g, (gs, s)) = add_to_groups-StartsWith y (group_by_tx xs) in
    ap (add_to_groups x) (group_by_tx-append (y ∷ xs) e ys o.1)
    ∙ rw s (add_to_groups-append x y g gs (group_by_tx (e ∷ ys)))

enumerate_groups-append :
    (gs hs : List (List WithdrawalEvent))
    → enumerate_groups (gs ++ hs) ≡ enumerate_groups gs ++ enumerate_groups hs
unfolding enumerate_groups
enumerate_groups-append [] hs = refl
enumerate_groups-append (g ∷ gs) hs =
    ap (λ l. enumerate 0 g ++ l) (enumerate_groups-append gs hs)
    ∙ sym (append_assoc (enumerate 0 g) (enumerate_groups gs) (enumerate_groups hs))

-- Two lists with no transaction in common at their border are numbered apart.
pub stored_withdrawals-append :
    (xs : List WithdrawalEvent) (e : WithdrawalEvent) (ys : List WithdrawalEvent)
    → IsOther e.tx_hash xs
    → stored_withdrawals (xs ++ e ∷ ys) ≡ stored_withdrawals xs ++ stored_withdrawals (e ∷ ys)
unfolding stored_withdrawals
stored_withdrawals-append xs e ys o =
    ap enumerate_groups (group_by_tx-append xs e ys o)
    ∙ enumerate_groups-append (group_by_tx xs) (group_by_tx (e ∷ ys))
