-- ===== src/Object/Label.antt =====
-- Labels of objects: 40 bytes, padded with zeros (src/object/label.rs).
use yubihsm_rs.Base.{
  ℕ, zero, suc, false, ◌-◌, ◌≤◌, ◌≡◌, ◌≢◌, refl, List, [], ◌∷◌, ◌++◌, length, replicate, All,
  Result, ok, err, arith, ltb, if◌then◌else◌, ◌==◌, length-append, length-replicate, bytes_eq, Bool,
}
use yubihsm_rs.Object.Error.{ObjectErrorKind, label_invalid}

abbrev pub Label : Type 0
Label = List ℕ

abbrev pub label_size : ℕ
label_size = 40

unfoldable pub from_bytes : List ℕ → Result ObjectErrorKind Label
from_bytes label_slice =
    if ltb label_size (length label_slice)
    then err label_invalid
    else ok (label_slice ++ replicate (label_size - length label_slice) 0)

-- `PartialEq`
unfoldable pub label_eq : Label → Label → Bool
label_eq label other = bytes_eq label other

-- The bytes that `try_as_str` reads as UTF-8: those before the first zero.
unfoldable pub text : Label → List ℕ
text [] = []
text (b ∷ bytes) = let rest = text bytes in if b == 0 then [] else b ∷ rest

text-replicate : (n : ℕ) → text (replicate n 0) ≡ []
unfolding text
text-replicate zero = refl
text-replicate (suc n) = refl

-- Bytes of which none is zero are what the label that they pad to is read as.
pub text-append_zeros :
    (bytes : List ℕ) (n : ℕ) → All (λ b. b ≢ 0) bytes → text (bytes ++ replicate n 0) ≡ bytes
unfolding text
text-append_zeros [] n h = text-replicate n
text-append_zeros (b ∷ bytes) n h = ground (arith, text-append_zeros bytes n h.1)

-- At most 40 bytes make a label, of 40 bytes, and if none of them is zero they are the text that is
-- read from the label.
pub label-from_bytes_lem :
    (bytes : List ℕ)
    → length bytes ≤ label_size
    → (label : Label) × (from_bytes bytes ≡ ok label)
      × (length label ≡ label_size)
      × (All (λ b. b ≢ 0) bytes → text label ≡ bytes)
unfolding from_bytes
label-from_bytes_lem bytes h = (
  bytes ++ replicate (label_size - length bytes) 0,
  rw short refl,
  omega (
    arith,
    length-append bytes (replicate (label_size - length bytes) 0),
    length-replicate {A = ℕ} (label_size - length bytes) 0,
  ),
  text-append_zeros bytes (label_size - length bytes),
)
  where
    short : ltb label_size (length bytes) ≡ false
    short = ground arith
