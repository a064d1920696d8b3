-- ===== src/Base/Results.antt =====
-- What a Rust function returns: a value, an error, or no value because it panics (a failed
-- `assert!`, an `unwrap` of nothing, an index out of range).
use mathlib.Core.Path.{◌≡◌, refl}
use mathlib.Core.Logic.{◌↔◌, ◌⊎◌, inl, inr}
use mathlib.Core.Bool.{Bool, true, false}
use mathlib.Core.Option.{Option, none, some}

pub data Result (E A : Type 0) : Type 0 where
  ok : A → Result E A
  err : E → Result E A
  panic : Result E A

-- The `?` operator, for a caller with the same error type; a panic goes on.
infixl 5 ◌>>=◌ ◌>>◌
abbrev pub ◌>>=◌ : {E A B : Type 0} → Result E A → (A → Result E B) → Result E B
panic >>= next = panic
err error >>= next = err error
ok value >>= next = next value

-- `assert!(test)`
abbrev pub assert : {E : Type 0} → Bool → Result E (Unit {0})
assert true = ok tt
assert false = panic

-- `ensure!(test, error)`
abbrev pub ensure : {E : Type 0} → Bool → E → Result E (Unit {0})
ensure false error = err error
ensure true error = ok tt

abbrev pub ◌>>◌ : {E B : Type 0} → Result E (Unit {0}) → Result E B → Result E B
first >> second = first >>= λ done. second

-- `.map_err(|_| e)`
abbrev pub map_err : {D E A : Type 0} → (D → E) → Result D A → Result E A
map_err f (ok a) = ok a
map_err f (err e) = err (f e)
map_err f panic = panic

-- `.unwrap()` on a result and on an option
abbrev pub unwrap : {D E A : Type 0} → Result D A → Result E A
unwrap (ok a) = ok a
unwrap (err e) = panic
unwrap panic = panic

abbrev pub expect : {E A : Type 0} → Option A → Result E A
expect none = panic
expect (some a) = ok a

-- `.ok_or(e)`
abbrev pub ok_or : {E A : Type 0} → Option A → E → Result E A
ok_or none e = err e
ok_or (some a) e = ok a

abbrev pub is_panic : {E A : Type 0} → Result E A → Bool
is_panic panic = true
is_panic (ok _) = false
is_panic (err _) = false

abbrev pub is_err : {E A : Type 0} → Result E A → Bool
is_err (err _) = true
is_err (ok _) = false
is_err panic = false

pub is_panic_iff : {E A : Type 0} (r : Result E A) → (r ≡ panic) ↔ (is_panic r ≡ true)
is_panic_iff panic = (λ _. refl, λ _. refl)
is_panic_iff (ok a) = (λ h. cc, λ h. cc)
is_panic_iff (err e) = (λ h. cc, λ h. cc)

pub is_err_iff : {E A : Type 0} (r : Result E A) → ((e : E) × (r ≡ err e)) ↔ (is_err r ≡ true)
is_err_iff (err e) = (λ _. refl, λ _. (e, refl))
is_err_iff (ok a) = (λ h. cc (h.1), λ h. cc)
is_err_iff panic = (λ h. cc (h.1), λ h. cc)

-- Inversion of steps that succeeded.
pub >>=-eq-ok :
    {E A B : Type 0} (first : Result E A) (next : A → Result E B) {result : B}
    → (first >>= next) ≡ ok result
    → (value : A) × (first ≡ ok value) × (next value ≡ ok result)
>>=-eq-ok panic next h = cc
>>=-eq-ok (err error) next h = cc
>>=-eq-ok (ok value) next h = (value, refl, h)

pub ok-inj : {E A : Type 0} {a b : A} → ◌≡◌ {A = Result E A} (ok a) (ok b) → a ≡ b
ok-inj e = cc

pub expect-eq-ok :
    {E A : Type 0} (o : Option A) (a : A) → ◌≡◌ {A = Result E A} (expect o) (ok a) → o ≡ some a
expect-eq-ok none a e = cc
expect-eq-ok (some b) a e = cc

pub map_err-eq-ok :
    {D E A : Type 0} (f : D → E) (r : Result D A) {a : A} → map_err f r ≡ ok a → r ≡ ok a
map_err-eq-ok f (ok a) h = cc
map_err-eq-ok f (err e) h = cc
map_err-eq-ok f panic h = cc

pub ensure-eq-ok :
    {E : Type 0} (test : Bool) (e : E) {u : Unit {0}} → ensure test e ≡ ok u → test ≡ true
ensure-eq-ok true e h = refl
ensure-eq-ok false e h = cc

abbrev pub is_ok : {E A : Type 0} → Result E A → Bool
is_ok (ok _) = true
is_ok (err _) = false
is_ok panic = false

-- To split on whether a step succeeded, with its value.
pub Result-cases : {E A : Type 0} (r : Result E A) → ((a : A) × (r ≡ ok a)) ⊎ (is_ok r ≡ false)
Result-cases (ok a) = inl (a, refl)
Result-cases (err e) = inr refl
Result-cases panic = inr refl
