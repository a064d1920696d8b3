-- ===== src/MockHsm/Maps.antt =====
-- The `BTreeMap`s of the simulated device (src/mockhsm): entries in the order of their keys. A key
-- is the number that stands for its place in the order of its type.
use yubihsm_rs.Base.{
  ℕ, ◌<◌, ◌≡◌, refl, List, [], ◌∷◌, Option, none, some, true, false, arith, ltb, leb, ◌==◌,
  if◌then◌else◌,
}

abbrev pub Map : Type 0 → Type 0
Map V = List (ℕ × V)

module _ {V : Type 0} where
  unfoldable pub lookup : ℕ → Map V → Option V
  lookup k [] = none
  lookup k ((j, v) ∷ entries) = let rest = lookup k entries in if k == j then some v else rest

  -- The map after an insertion; the value that was there before is `lookup`'s.
  unfoldable pub insert : ℕ → V → Map V → Map V
  insert k v [] = (k, v) ∷ []
  insert k v ((j, w) ∷ entries) =
      let rest = insert k v entries in
      if ltb k j
      then (k, v) ∷ (j, w) ∷ entries
      else if k == j
      then (k, v) ∷ entries
      else (j, w) ∷ rest

  unfoldable pub remove : ℕ → Map V → Map V
  remove k [] = []
  remove k ((j, v) ∷ entries) =
      let rest = remove k entries in if k == j then rest else (j, v) ∷ rest

  -- `keys().max()`
  unfoldable pub max_key : Map V → Option ℕ
  max_key [] = none
  max_key ((j, v) ∷ entries) = elim (max_key entries) [
    | none ↦ some j
    | some k ↦ some (if leb j k then k else j)
  ]

  pub lookup-insert :
      (j k : ℕ) (v : V) (entries : Map V)
      → lookup j (insert k v entries) ≡ (if j == k then some v else lookup j entries)
  unfolding lookup insert
  lookup-insert j k v [] = refl
  lookup-insert j k v ((i, w) ∷ entries) = ground (arith, lookup-insert j k v entries)

  pub lookup-remove :
      (j k : ℕ) (entries : Map V)
      → lookup j (remove k entries) ≡ (if j == k then none else lookup j entries)
  unfolding lookup remove
  lookup-remove j k [] = ground arith
  lookup-remove j k ((i, w) ∷ entries) = ground (arith, lookup-remove j k entries)

  -- Every entry's key is above a number, and the keys grow.
  abbrev pub IsAbove : ℕ → Map V → Type 0
  IsAbove low [] = Unit
  IsAbove low ((j, v) ∷ entries) = (low < j) × IsAbove j entries

  abbrev pub IsSorted : Map V → Type 0
  IsSorted [] = Unit
  IsSorted ((j, v) ∷ entries) = IsAbove j entries

  insert-IsAbove :
      (low k : ℕ) (v : V) (entries : Map V)
      → low < k
      → IsAbove low entries
      → IsAbove low (insert k v entries)
  unfolding insert
  insert-IsAbove low k v [] h above = (h, tt)
  insert-IsAbove low k v ((j, w) ∷ entries) h above = ground (arith, insert-IsAbove j k v entries)

  pub insert-IsSorted :
      (k : ℕ) (v : V) (entries : Map V) → IsSorted entries → IsSorted (insert k v entries)
  unfolding insert
  insert-IsSorted k v [] h = tt
  insert-IsSorted k v ((j, w) ∷ entries) h = ground (arith, insert-IsAbove j k v entries)

  lower : (low j : ℕ) (entries : Map V) → low < j → IsAbove j entries → IsAbove low entries
  lower low j [] h above = tt
  lower low j ((i, w) ∷ entries) h above = (omega (arith, above.0), above.1)

  IsAbove-IsSorted : (low : ℕ) (entries : Map V) → IsAbove low entries → IsSorted entries
  IsAbove-IsSorted low [] above = tt
  IsAbove-IsSorted low ((i, w) ∷ entries) above = above.1

  remove-IsAbove :
      (low k : ℕ) (entries : Map V) → IsAbove low entries → IsAbove low (remove k entries)
  unfolding remove
  remove-IsAbove low k [] above = tt
  remove-IsAbove low k ((j, w) ∷ entries) above =
      elim (k == j)
        as (λ b. IsAbove low (if b then remove k entries else (j, w) ∷ remove k entries)) [
          | true ↦ lower low j (remove k entries) above.0 (remove-IsAbove j k entries above.1)
          | false ↦ (above.0, remove-IsAbove j k entries above.1)
        ]

  pub remove-IsSorted : (k : ℕ) (entries : Map V) → IsSorted entries → IsSorted (remove k entries)
  unfolding remove
  remove-IsSorted k [] h = tt
  remove-IsSorted k ((j, w) ∷ entries) h =
      elim (k == j) as (λ b. IsSorted (if b then remove k entries else (j, w) ∷ remove k entries)) [
        | true ↦ IsAbove-IsSorted j (remove k entries) (remove-IsAbove j k entries h)
        | false ↦ remove-IsAbove j k entries h
      ]
