-- ===== src/Base/Actions.antt =====
-- Methods on `&mut self`: a state goes in, and a result and the new state come out. What was
-- written before an error or a panic stays written.
use mathlib.Core.Path.{◌≡◌, ap}
use mathlib.Core.Bool.{Bool, true, false}
use yubihsm_rs.Base.Results.{Result, ok, err, panic}

abbrev pub Action : Type 0 → Type 0 → Type 0 → Type 0
Action E S A = S → Result E A × S

module _ {E S : Type 0} where
  abbrev pub pure : {A : Type 0} → A → Action E S A
  pure a s = (ok a, s)

  abbrev pub fail : {A : Type 0} → E → Action E S A
  fail e s = (err e, s)

  abbrev pub get : Action E S S
  get s = (ok s, s)

  abbrev pub modify : (S → S) → Action E S (Unit {0})
  modify f s = (ok tt, f s)

  abbrev pub lift : {A : Type 0} → Result E A → Action E S A
  lift r s = (r, s)

  -- `assert!(test)`
  abbrev pub assert : Bool → Action E S (Unit {0})
  assert true s = (ok tt, s)
  assert false s = (panic, s)

  -- A step that succeeds hands its value and its state to the rest; one that does not ends
  -- the call.
  abbrev pub bind : {A B : Type 0} → Result E A × S → (A → Action E S B) → Result E B × S
  bind (ok a, s) f = f a s
  bind (err e, s) f = (err e, s)
  bind (panic, s) f = (panic, s)

  infixl 5 ◌>>=◌ ◌>>◌
  abbrev pub ◌>>=◌ : {A B : Type 0} → Action E S A → (A → Action E S B) → Action E S B
  ◌>>=◌ m f s = bind (m s) f

  abbrev pub ◌>>◌ : {A B : Type 0} → Action E S A → Action E S B → Action E S B
  m >> k = m >>= λ _. k

-- A step on one part of the state, which `put` writes back.
module _ {E S T : Type 0} (part : S → T) (put : T → S → S) where
  placed : {A : Type 0} → Result E A × T → S → Result E A × S
  placed (r, t) s = (r, put t s)

  unfoldable pub zoom : {A : Type 0} → Action E T A → Action E S A
  unfolding placed
  zoom m s = placed (m (part s)) s

  pub zoom_eq :
      {A : Type 0} (m : Action E T A) (s : S) {r : Result E A} {t : T}
      → m (part s) ≡ (r, t)
      → zoom m s ≡ (r, put t s)
  unfolding zoom
  zoom_eq m s e = ap (λ p. placed p s) e
