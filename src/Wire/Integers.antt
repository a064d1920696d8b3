-- ===== src/Wire/Integers.antt =====
-- Machine integers of any number of bytes, the highest first (`to_be_bytes` and `from_be_bytes`,
-- which src/serialization calls).
use yubihsm_rs.Base.{
  ℕ, zero, suc, ◌+◌, ◌*◌, ◌/◌, ◌%◌, ◌^◌, ◌<◌, ◌≡◌, refl, ap, ◌∙◌, sym, List, [], ◌∷◌, ◌++◌, length,
  length-append, append-nil, append_assoc, All, arith,
}
use mathlib.Core.Path.{subst}
use yubihsm_rs.Base.Bytes.{IsByte}

unfoldable pub be_bytes : ℕ → ℕ → List ℕ
be_bytes zero v = []
be_bytes (suc n) v = be_bytes n (v / 256) ++ (v % 256 ∷ [])

-- The value of digits in base 256 behind a prefix's value.
unfoldable pub be_value : ℕ → List ℕ → ℕ
be_value prefix [] = prefix
be_value prefix (x ∷ xs) = be_value (prefix * 256 + x) xs

pub length-be_bytes : (n v : ℕ) → length (be_bytes n v) ≡ n
unfolding be_bytes
length-be_bytes zero v = refl
length-be_bytes (suc n) v =
    omega (arith, length-append (be_bytes n (v / 256)) (v % 256 ∷ []), length-be_bytes n (v / 256))

be_value-last :
    (p : ℕ) (xs : List ℕ) (y : ℕ) → be_value p (xs ++ (y ∷ [])) ≡ be_value p xs * 256 + y
unfolding be_value
be_value-last p [] y = refl
be_value-last p (x ∷ xs) y = be_value-last (p * 256 + x) xs y

-- An integer that its bytes can hold is read back.
pub be_value-be_bytes : (n v : ℕ) → v < 256 ^ n → be_value 0 (be_bytes n v) ≡ v
unfolding be_bytes be_value
be_value-be_bytes zero v h = omega arith
be_value-be_bytes (suc n) v h = omega (
  arith,
  be_value-last 0 (be_bytes n (v / 256)) (v % 256),
  be_value-be_bytes n (v / 256) (omega arith),
)

-- Digits read behind a prefix and written again, the prefix's own bytes in front.
be_bytes-be_value_from :
    (m p : ℕ) (xs : List ℕ)
    → All IsByte xs
    → be_bytes (length xs + m) (be_value p xs) ≡ be_bytes m p ++ xs
unfolding be_bytes be_value
be_bytes-be_value_from m p [] small =
    ap (λ k. be_bytes k p) none_more ∙ sym (append-nil (be_bytes m p))
  where
    none_more : 0 + m ≡ m
    none_more = omega arith
be_bytes-be_value_from m p (x ∷ xs) small =
    ap (λ k. be_bytes k (be_value (p * 256 + x) xs)) shifted
    ∙ be_bytes-be_value_from (suc m) (p * 256 + x) xs small.1
    ∙ rw (quotient, remainder) (append_assoc (be_bytes m p) (x ∷ []) xs)
  where
    shifted : suc (length xs) + m ≡ length xs + suc m
    shifted = omega arith

    quotient : (p * 256 + x) / 256 ≡ p
    quotient = omega (arith, small.0)

    remainder : (p * 256 + x) % 256 ≡ x
    remainder = omega (arith, small.0)

be_value-lt_from :
    (m p : ℕ) (xs : List ℕ) → All IsByte xs → p < 256 ^ m → be_value p xs < 256 ^ (length xs + m)
unfolding be_value
be_value-lt_from m p [] small h = subst (λ k. p < 256 ^ k) (omega arith) h
be_value-lt_from m p (x ∷ xs) small h =
    subst (λ k. be_value (p * 256 + x) xs < 256 ^ k) shifted
      (be_value-lt_from (suc m) (p * 256 + x) xs small.1 (omega (arith, small.0)))
  where
    shifted : length xs + suc m ≡ suc (length xs) + m
    shifted = omega arith

-- Bytes are what is written for the integer that they are read as, and they can hold it.
pub be_bytes-be_value :
    (xs : List ℕ)
    → All IsByte xs
    → (be_bytes (length xs) (be_value 0 xs) ≡ xs) × (be_value 0 xs < 256 ^ length xs)
unfolding be_bytes
be_bytes-be_value xs small = (
  ap (λ k. be_bytes k (be_value 0 xs)) plain ∙ be_bytes-be_value_from 0 0 xs small,
  subst (λ k. be_value 0 xs < 256 ^ k) (sym plain) (be_value-lt_from 0 0 xs small (omega arith)),
)
  where
    plain : length xs ≡ length xs + 0
    plain = omega arith
