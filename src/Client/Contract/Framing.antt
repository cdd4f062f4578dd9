-- ===== src/Client/Contract/Framing.antt =====
-- client/src/zksync_contract.rs: how logs and messages stand in the pubdata of a batch, and that the
-- parser finds them.
use native.Mathlib.Numerals.{unary_clauses}
use zksync_withdrawal_finali.Common.{
  arith, ℕ, zero, suc, ◌+◌, ◌-◌, ◌*◌, ◌/◌, ◌%◌, ◌^◌, ◌≤◌, ◌<◌, ◌≡◌, refl, ap, ◌∙◌, subst, List, [],
  ◌∷◌, ◌++◌, length, length-append, take, le→leb, ok,
}
use zksync_withdrawal_finali.Client.Contract.{drop, slice, be_bytes_after, from_be_bytes}

-- `count` bytes of a number, the highest first.
abbrev pub to_be_bytes : ℕ → ℕ → List ℕ
to_be_bytes zero n = []
to_be_bytes (suc count) n = to_be_bytes count (n / 256) ++ n % 256 ∷ []

pub length-to_be_bytes : (count n : ℕ) → length (to_be_bytes count n) ≡ count
length-to_be_bytes zero n = refl
length-to_be_bytes (suc count) n = omega (
  arith,
  length-append (to_be_bytes count (n / 256)) (n % 256 ∷ []),
  length-to_be_bytes count (n / 256),
)

be_bytes_after-snoc :
    (high b : ℕ) (bs : List ℕ)
    → be_bytes_after high (bs ++ b ∷ []) ≡ be_bytes_after high bs * 256 + b
be_bytes_after-snoc high b [] = refl
be_bytes_after-snoc high b (c ∷ cs) = be_bytes_after-snoc (high * 256 + c) b cs

pub from_be_bytes-to_be_bytes :
    (count n : ℕ) → n < 256 ^ count → from_be_bytes (to_be_bytes count n) ≡ n
from_be_bytes-to_be_bytes zero n h = omega (arith, h)
from_be_bytes-to_be_bytes (suc count) n h =
    be_bytes_after-snoc 0 (n % 256) (to_be_bytes count (n / 256))
    ∙ ap (λ k. k * 256 + n % 256) (from_be_bytes-to_be_bytes count (n / 256) smaller)
    ∙ omega arith
  where
    power : 256 ^ suc count ≡ 256 ^ count * 256
    power = simp unary_clauses (omega arith)

    smaller : n / 256 < 256 ^ count
    smaller = omega (arith, h, power)

drop-append : (pre rest : List ℕ) → drop (length pre) (pre ++ rest) ≡ rest
drop-append [] rest = refl
drop-append (b ∷ pre) rest = drop-append pre rest

take-append : (mid post : List ℕ) → take (length mid) (mid ++ post) ≡ mid
take-append [] post = refl
take-append (b ∷ mid) post = ap (λ l. b ∷ l) (take-append mid post)

pub drop-at : (n : ℕ) (pre rest : List ℕ) → length pre ≡ n → drop n (pre ++ rest) ≡ rest
drop-at n pre rest e = subst (λ k. drop k (pre ++ rest) ≡ rest) e (drop-append pre rest)

pub take-at : (n : ℕ) (mid post : List ℕ) → length mid ≡ n → take n (mid ++ post) ≡ mid
take-at n mid post e = subst (λ k. take k (mid ++ post) ≡ mid) e (take-append mid post)

-- The slice between `pre` and `post`.
pub slice-middle :
    (from to : ℕ) (pre mid post : List ℕ)
    → length pre ≡ from
    → from + length mid ≡ to
    → slice from to (pre ++ (mid ++ post)) ≡ ok mid
slice-middle from to pre mid post e f =
    rw
      (
        le→leb from to (omega arith),
        le→leb to (length (pre ++ (mid ++ post))) long,
        drop-at from pre (mid ++ post) e,
      )
      (ap ok (take-at (to - from) mid post (omega arith)))
  where
    long : to ≤ length (pre ++ (mid ++ post))
    long = omega (arith, length-append pre (mid ++ post), length-append mid post)
