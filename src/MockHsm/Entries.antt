-- ===== src/MockHsm/Entries.antt =====
-- What holds of all entries of a map, and in which maps it still holds (src/mockhsm).
use yubihsm_rs.Base.{
  ℕ, ◌≡◌, sym, [], ◌∷◌, Option, none, some, ltb, ◌==◌, if◌then◌else◌, true, false, Bool-cases, inl,
  inr, ==_iff,
}
use mathlib.Core.Path.{subst}
use yubihsm_rs.MockHsm.Maps.{Map, lookup, insert, remove}

module _ {V : Type 0} (P : ℕ → V → Type 0) where
  abbrev pub Every : Map V → Type 0
  Every [] = Unit
  Every ((k, v) ∷ entries) = P k v × Every entries

  abbrev pub Holds : ℕ → Option V → Type 0
  Holds k none = Unit
  Holds k (some v) = P k v

  pub insert-Every :
      (k : ℕ) (v : V) (entries : Map V) → P k v → Every entries → Every (insert k v entries)
  unfolding insert
  insert-Every k v [] p h = (p, tt)
  insert-Every k v ((j, w) ∷ entries) p h =
      elim (ltb k j)
        as (λ b. Every (
          if b
          then (k, v) ∷ (j, w) ∷ entries
          else if k == j
          then (k, v) ∷ entries
          else (j, w) ∷ insert k v entries)) [
            | true ↦ (p, h)
            | false ↦
                elim (k == j)
                  as (λ b. Every (if b then (k, v) ∷ entries else (j, w) ∷ insert k v entries)) [
                    | true ↦ (p, h.1)
                    | false ↦ (h.0, insert-Every k v entries p h.1)
                  ]
          ]

  pub remove-Every : (k : ℕ) (entries : Map V) → Every entries → Every (remove k entries)
  unfolding remove
  remove-Every k [] h = tt
  remove-Every k ((j, w) ∷ entries) h =
      elim (k == j) as (λ b. Every (if b then remove k entries else (j, w) ∷ remove k entries)) [
        | true ↦ remove-Every k entries h.1
        | false ↦ (h.0, remove-Every k entries h.1)
      ]

  lookup-Every : (k : ℕ) (entries : Map V) → Every entries → Holds k (lookup k entries)
  unfolding lookup
  lookup-Every k [] h = tt
  lookup-Every k ((j, w) ∷ entries) h = elim (Bool-cases (k == j)) [
    | inl same ↦ rw same (subst (λ i. P i w) (sym ((==_iff k j).0 same)) h.0)
    | inr other ↦ rw other (lookup-Every k entries h.1)
  ]

  pub found-Every :
      (k : ℕ) (entries : Map V) (v : V) → Every entries → lookup k entries ≡ some v → P k v
  found-Every k entries v h e = subst (Holds k) e (lookup-Every k entries h)
