-- ===== src/Domain.antt =====
-- Domains, one bit each (src/domain.rs). A set of domains is the number of its bits.
mod Tests
use yubihsm_rs.Base.{
  ℕ, zero, suc, ◌-◌, ◌^◌, ◌≡◌, refl, List, [], ◌∷◌, Result, ok, err, panic, expect, Option, none,
  some, arith, ltb, leb, ◌&&◌, if◌then◌else◌, ◌==◌, Bool, true, false, not, Bool-cases, inl, inr,
  ltb→lt,
}
use yubihsm_rs.Base.Tables.{holds_below, holds_below_at}

pub data DomainErrorKind : Type 0 where
  domain_invalid : DomainErrorKind

abbrev pub Domain : Type 0
Domain = ℕ

unfoldable pub domains : List Domain
domains =
    0x0001 ∷ 0x0002 ∷ 0x0004 ∷ 0x0008 ∷ 0x0010 ∷ 0x0020 ∷ 0x0040 ∷ 0x0080 ∷ 0x0100 ∷ 0x0200 ∷ 0x0400
    ∷ 0x0800 ∷ 0x1000 ∷ 0x2000 ∷ 0x4000 ∷ 0x8000 ∷ []

get_elem? : {A : Type 0} → List A → ℕ → Option A
get_elem? [] i = none
get_elem? (x ∷ xs) zero = some x
get_elem? (x ∷ xs) (suc i) = get_elem? xs i

-- The index into the table cannot be out of range, and the model has a panic there.
unfoldable pub at : ℕ → Result DomainErrorKind Domain
unfolding domains get_elem?
at index =
    if ltb 0 index
    then (if ltb index 17 then expect (get_elem? domains (index - 1)) else err domain_invalid)
    else err domain_invalid

-- Whether `at` gives what is expected of a number from 0 to 16.
expected : ℕ → Result DomainErrorKind Domain → Bool
expected index (ok domain) = not (index == 0) && domain == 2 ^ (index - 1)
expected index (err domain_invalid) = index == 0
expected index panic = false

is_expected : ℕ → Bool
unfolding at expected
is_expected index = expected index (at index)

expected_eq :
    (index : ℕ) (r : Result DomainErrorKind Domain)
    → expected index r ≡ true
    → ltb index 17 ≡ true
    → r ≡ (if leb 1 index && leb index 16 then ok (2 ^ (index - 1)) else err domain_invalid)
unfolding expected
expected_eq index (ok domain) h below = ground arith
expected_eq index (err domain_invalid) h below = ground arith
expected_eq index panic h below = cc

-- The domain with a number is the bit that stands one place lower, if the number is from 1 to 16,
-- and any other number is refused.
pub domain-at_lem :
    (index : ℕ)
    → at index ≡ (if leb 1 index && leb index 16 then ok (2 ^ (index - 1)) else err domain_invalid)
domain-at_lem index = elim (Bool-cases (ltb index 17)) [
  | inl h ↦
      expected_eq index (at index)
        (unfold is_expected in
          holds_below_at 17 is_expected index (unfold holds_below is_expected in refl)
            (ltb→lt index 17 h))
        h
  | inr h ↦ unfold at in ground arith
]
