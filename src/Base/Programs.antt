-- ===== src/Base/Programs.antt =====
-- The steps of Base.Actions as definitions that stay shut until a lemma opens them, and a rule for
-- each of them, by which `search` proves that a block keeps a property of the state.
use mathlib.Core.Path.{◌≡◌, refl, ap}
use mathlib.Core.Bool.{Bool, true, false}
use yubihsm_rs.Base.Results.{Result, ok, err, panic}
use yubihsm_rs.Base.Tests.{if◌then◌else◌}
use yubihsm_rs.Base.Actions.{Action, bind}

module _ {E S : Type 0} where
  unfoldable pub pure : {A : Type 0} → A → Action E S A
  pure a s = (ok a, s)

  unfoldable pub fail : {A : Type 0} → E → Action E S A
  fail e s = (err e, s)

  unfoldable pub get : Action E S S
  get s = (ok s, s)

  unfoldable pub modify : (S → S) → Action E S (Unit {0})
  modify f s = (ok tt, f s)

  unfoldable pub lift : {A : Type 0} → Result E A → Action E S A
  lift r s = (r, s)

  -- `assert!(test)`
  unfoldable pub assert : Bool → Action E S (Unit {0})
  assert true s = (ok tt, s)
  assert false s = (panic, s)

  infixl 5 ◌>>=◌ ◌>>◌
  unfoldable pub ◌>>=◌ : {A B : Type 0} → Action E S A → (A → Action E S B) → Action E S B
  ◌>>=◌ m f s = bind (m s) f

  abbrev pub ◌>>◌ : {A B : Type 0} → Action E S A → Action E S B → Action E S B
  m >> k = m >>= λ _. k

-- `m` keeps `P`, whether it returns a value, an error or a panic.
pub record Keeps {E S A : Type 0} (P : S → Type 0) (m : Action E S A) : Type 0 where
  pub kept : (s : S) → P s → P (m s).1

module _ {E S A : Type 0} {P : S → Type 0} where
  pub pure-Keeps : (a : A) → Keeps P (pure {E = E} {S = S} a)
  unfolding pure
  pure-Keeps a = record { kept = λ s h. h }

  pub fail-Keeps : (e : E) → Keeps P (fail {E = E} {S = S} {A = A} e)
  unfolding fail
  fail-Keeps e = record { kept = λ s h. h }

  pub lift-Keeps : (r : Result E A) → Keeps P (lift {E = E} {S = S} r)
  unfolding lift
  lift-Keeps r = record { kept = λ s h. h }

  pub if-Keeps :
      (b : Bool) (m n : Action E S A) → Keeps P m → Keeps P n → Keeps P (if b then m else n)
  if-Keeps true m n h k = h
  if-Keeps false m n h k = k

module _ {E S : Type 0} {P : S → Type 0} where
  pub assert-Keeps : (b : Bool) → Keeps P (assert {E = E} {S = S} b)
  unfolding assert
  assert-Keeps true = record { kept = λ s h. h }
  assert-Keeps false = record { kept = λ s h. h }

  pub modify-Keeps : (f : S → S) → ((s : S) → P s → P (f s)) → Keeps P (modify {E = E} f)
  unfolding modify
  modify-Keeps f h = record { kept = h }

  pub get-Keeps : Keeps P (get {E = E} {S = S})
  unfolding get
  get-Keeps = record { kept = λ s h. h }

module _ {E S A B : Type 0} {P : S → Type 0} where
  bound-kept :
      (r : Result E A) (s : S) (f : A → Action E S B)
      → P s
      → ((a : A) → Keeps P (f a))
      → P (bind (r, s) f).1
  bound-kept (ok a) s f h k = (k a).kept s h
  bound-kept (err e) s f h k = h
  bound-kept panic s f h k = h

  pub bind-Keeps :
      (m : Action E S A) (f : A → Action E S B)
      → Keeps P m
      → ((a : A) → Keeps P (f a))
      → Keeps P (m >>= f)
  unfolding ◌>>=◌
  bind-Keeps m f h k = record { kept = λ s p. bound-kept (m s).0 (m s).1 f (h.kept s p) k }

pub ruleset keeps_rules =
    (pure-Keeps, fail-Keeps, lift-Keeps, if-Keeps, assert-Keeps, get-Keeps, bind-Keeps)

module _ {E S A B : Type 0} where
  bound-ok :
      (r : Result E A × S) (f : A → Action E S B) {b : B} {t : S}
      → bind r f ≡ (ok b, t)
      → (a : A) × (u : S) × (r ≡ (ok a, u)) × (f a u ≡ (ok b, t))
  bound-ok (ok a, u) f e = (a, u, refl, e)
  bound-ok (err x, u) f e = absurd (err-ne-ok (ap (λ p. p.0) e))
    where
      err-ne-ok : {b : B} → ◌≡◌ {A = Result E B} (err x) (ok b) → ⊥
      err-ne-ok h = cc
  bound-ok (panic, u) f e = absurd (panic-ne-ok (ap (λ p. p.0) e))
    where
      panic-ne-ok : {b : B} → ◌≡◌ {A = Result E B} panic (ok b) → ⊥
      panic-ne-ok h = cc

  -- Inversion of two steps that succeeded.
  pub >>=-ok :
      (m : Action E S A) (f : A → Action E S B) (s : S) {b : B} {t : S}
      → (m >>= f) s ≡ (ok b, t)
      → (a : A) × (u : S) × (m s ≡ (ok a, u)) × (f a u ≡ (ok b, t))
  unfolding ◌>>=◌
  >>=-ok m f s e = bound-ok (m s) f e

module _ {E S : Type 0} where
  pub lift-ok :
      {A : Type 0} (r : Result E A) (s : S) {a : A} {t : S}
      → lift r s ≡ (ok a, t)
      → (r ≡ ok a) × (s ≡ t)
  unfolding lift
  lift-ok r s e = (ap (λ p. p.0) e, ap (λ p. p.1) e)

  pub assert-ok :
      (b : Bool) (s : S) {u : Unit {0}} {t : S}
      → assert {E = E} b s ≡ (ok u, t)
      → (b ≡ true) × (s ≡ t)
  unfolding assert
  assert-ok true s e = (refl, ap (λ p. p.1) e)
  assert-ok false s {u = u} e = absurd (panic-ne-ok (ap (λ p. p.0) e))
    where
      panic-ne-ok : ◌≡◌ {A = Result E (Unit {0})} panic (ok u) → ⊥
      panic-ne-ok h = cc
