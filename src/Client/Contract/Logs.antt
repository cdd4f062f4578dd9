-- ===== src/Client/Contract/Logs.antt =====
-- client/src/zksync_contract.rs: the logs in the pubdata of a batch.
use mathlib.Core.List.{append_assoc}
use zksync_withdrawal_finali.Common.{
  arith, ℕ, suc, ◌+◌, ◌*◌, ◌^◌, ◌≤◌, ◌<◌, ◌≡◌, refl, sym, ap, subst, false, List, [], ◌∷◌, ◌++◌,
  length, length-append, map, filter, All, ltb, Bool-cases, inl, inr, ok,
}
use zksync_withdrawal_finali.Client.Contract.{
  L2Log, slice, from_be_bytes, log_of, decode, unwrap, is_from_messenger, read_logs,
}
use zksync_withdrawal_finali.Client.Contract.Framing.{
  to_be_bytes, from_be_bytes-to_be_bytes, slice-middle,
}

-- What one after the other gives.
abbrev pub catenate : List (List ℕ) → List ℕ
catenate [] = []
catenate (bytes ∷ rest) = bytes ++ catenate rest

abbrev pub encode_messages : List (List ℕ) → List ℕ
encode_messages [] = []
encode_messages (m ∷ ms) = to_be_bytes 4 (length m) ++ (m ++ encode_messages ms)

-- The pubdata of a batch: its logs, its messages, and what follows.
abbrev pub encode_pubdata : List (List ℕ) → List (List ℕ) → List ℕ → List ℕ
encode_pubdata logs messages tail =
    to_be_bytes 4 (length logs)
    ++ (catenate logs ++ (to_be_bytes 4 (length messages) ++ (encode_messages messages ++ tail)))

abbrev pub IsLog : List ℕ → Type 0
IsLog bytes = length bytes ≡ 88

abbrev pub IsShort : {A : Type 0} → List A → Type 0
IsShort xs = length xs < 2 ^ 32

-- Logs numbered from a position on.
abbrev pub numbered : ℕ → List L2Log → List (L2Log × ℕ)
numbered position [] = []
numbered position (log ∷ logs) = (log, position) ∷ numbered (position + 1) logs

pub u32-round : (n : ℕ) → n < 2 ^ 32 → from_be_bytes (to_be_bytes 4 n) ≡ n
u32-round n h = from_be_bytes-to_be_bytes 4 n (omega (arith, h))

pub decode-log : (bytes : List ℕ) → IsLog bytes → unwrap (decode bytes) ≡ ok (log_of bytes)
unfolding decode
decode-log bytes l = rw l refl

-- One more log, whatever stands before and after it.
pub read_logs-step :
    (whole bytes : List ℕ) (logs : List (List ℕ)) (i current : ℕ)
    → IsLog bytes
    → slice (i * 88) (i * 88 + 88) whole ≡ ok bytes
    → ((c : ℕ)
        → read_logs whole (length logs) (i + 1) c
          ≡ ok (numbered c (filter is_from_messenger (map log_of logs))))
    → read_logs whole (suc (length logs)) i current
      ≡ ok (numbered current (filter is_from_messenger (map log_of (bytes ∷ logs))))
unfolding read_logs
read_logs-step whole bytes logs i current l found rest =
    rw (found, decode-log bytes l)
      (elim (Bool-cases (is_from_messenger (log_of bytes))) [
        | inl e ↦ rw (e, rest (current + 1)) refl
        | inr e ↦ rw (e, rest current) refl
      ])

pub read_logs-numbered :
    (logs : List (List ℕ)) (pre post : List ℕ) (i current : ℕ)
    → All IsLog logs
    → length pre ≡ i * 88
    → read_logs (pre ++ (catenate logs ++ post)) (length logs) i current
      ≡ ok (numbered current (filter is_from_messenger (map log_of logs)))
unfolding read_logs
read_logs-numbered [] pre post i current a e = refl
read_logs-numbered (bytes ∷ logs) pre post i current (l, a) e =
    subst
      (λ list.
        read_logs list (suc (length logs)) i current
        ≡ ok (numbered current (filter is_from_messenger (map log_of (bytes ∷ logs)))))
      (ap (λ r. pre ++ r) (sym (append_assoc bytes (catenate logs) post)))
      (read_logs-step (pre ++ (bytes ++ (catenate logs ++ post))) bytes logs i current l
        (slice-middle (i * 88) (i * 88 + 88) pre bytes (catenate logs ++ post) e (omega (arith, l)))
        (λ c.
          subst
            (λ list.
              read_logs list (length logs) (i + 1) c
              ≡ ok (numbered c (filter is_from_messenger (map log_of logs))))
            (append_assoc pre bytes (catenate logs ++ post))
            (read_logs-numbered logs (pre ++ bytes) post (i + 1) c a
              (omega (arith, length-append pre bytes, e, l)))))

pub same-not-below : (n : ℕ) → ltb n n ≡ false
same-not-below n = ground arith

pub not-below : (n m : ℕ) → m ≤ n → ltb n m ≡ false
not-below n m h = ground arith

pub length-catenate :
    (logs : List (List ℕ)) → All IsLog logs → length (catenate logs) ≡ length logs * 88
length-catenate [] a = refl
length-catenate (bytes ∷ logs) (l, a) =
    omega (arith, length-append bytes (catenate logs), l, length-catenate logs a)
