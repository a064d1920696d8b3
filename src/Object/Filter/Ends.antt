-- ===== src/Object/Filter/Ends.antt =====
-- The loop that reads filters ends (src/mockhsm/command.rs, src/object/filter.rs).
use yubihsm_rs.Base.{
  ℕ, zero, suc, ◌≤◌, ◌-◌, ◌≢◌, List, [], ◌∷◌, length, length-drop, drop, Result, ok, err, panic,
  Option, none, some, arith, map_err, Bool, true, false, if◌then◌else◌, ◌==◌, ◌>>=◌, leb, ensure,
  take, ◌>>◌,
}
use mathlib.Core.Path.{subst}
use yubihsm_rs.Object.Filter.{
  Filter, FilterErrorKind, reading, read_payload, parse, parse_all, with_first, after,
}
use yubihsm_rs.Wire.{uint, array, end_of_stream, read, read_exact}

-- What is left of a number of bytes, when a step succeeds.
abbrev IsWithin : {E A : Type 0} → Result E (A × List ℕ) → ℕ → Type 0
IsWithin (ok (a, left)) n = length left ≤ n
IsWithin (err e) n = Unit
IsWithin panic n = Unit

bind-IsWithin :
    {E A B : Type 0} (first : Result E (A × List ℕ)) (next : A × List ℕ → Result E (B × List ℕ))
    (n : ℕ)
    → IsWithin first n
    → ((a : A) (left : List ℕ) → length left ≤ n → IsWithin (next (a, left)) n)
    → IsWithin (first >>= next) n
bind-IsWithin (ok (a, left)) next n h k = k a left h
bind-IsWithin (err e) next n h k = tt
bind-IsWithin panic next n h k = tt

map_err-IsWithin :
    {D E A : Type 0} (f : D → E) (r : Result D (A × List ℕ)) (n : ℕ)
    → IsWithin r n
    → IsWithin (map_err f r) n
map_err-IsWithin f (ok (a, left)) n h = h
map_err-IsWithin f (err e) n h = tt
map_err-IsWithin f panic n h = tt

if-IsWithin :
    {E A : Type 0} (b : Bool) (x y : Result E (A × List ℕ)) (n : ℕ)
    → IsWithin x n
    → IsWithin y n
    → IsWithin (if b then x else y) n
if-IsWithin true x y n h k = h
if-IsWithin false x y n h k = k

-- A value that is looked up between a read and what is left.
then-IsWithin :
    {E A B : Type 0} (r : Result E A) (next : A → B) (left : List ℕ) (n : ℕ)
    → length left ≤ n
    → IsWithin (r >>= λ a. ok (next a, left)) n
then-IsWithin (ok a) next left n h = h
then-IsWithin (err e) next left n h = tt
then-IsWithin panic next left n h = tt

read_exact-IsWithin : (k : ℕ) (bytes : List ℕ) → IsWithin (read_exact k bytes) (length bytes - k)
unfolding read_exact
read_exact-IsWithin k bytes =
    elim (leb k (length bytes))
      as (λ b.
        IsWithin (ensure b end_of_stream >> ok (take k bytes, drop k bytes)) (length bytes - k)) [
          | true ↦ omega (arith, length-drop k bytes)
          | false ↦ tt
        ]

reading_uint-IsWithin :
    (k : ℕ) (bytes : List ℕ) → IsWithin (reading (uint k) bytes) (length bytes - k)
unfolding reading read
reading_uint-IsWithin k bytes = map_err-IsWithin _ (read (uint k) bytes) (length bytes - k) (
    bind-IsWithin (read_exact k bytes) _ (length bytes - k) (read_exact-IsWithin k bytes)
      (λ first left h. h))

reading_label-IsWithin : (bytes : List ℕ) → IsWithin (reading (array 40) bytes) (length bytes - 40)
unfolding reading read
reading_label-IsWithin bytes =
    map_err-IsWithin _ (read (array 40) bytes) (length bytes - 40) (read_exact-IsWithin 40 bytes)

weaker : {E A : Type 0} (r : Result E (A × List ℕ)) (m n : ℕ) → m ≤ n → IsWithin r m → IsWithin r n
weaker (ok (a, left)) m n h k = omega (arith, h, k)
weaker (err e) m n h k = tt
weaker panic m n h k = tt

uint_step :
    {B : Type 0} (k : ℕ) (bytes : List ℕ) (next : ℕ × List ℕ → Result FilterErrorKind (B × List ℕ))
    (n : ℕ)
    → length bytes ≤ n
    → ((a : ℕ) (left : List ℕ) → length left ≤ n → IsWithin (next (a, left)) n)
    → IsWithin (reading (uint k) bytes >>= next) n
uint_step k bytes next n h more =
    bind-IsWithin (reading (uint k) bytes) next n
      (weaker (reading (uint k) bytes) (length bytes - k) n (omega arith)
        (reading_uint-IsWithin k bytes))
      more

label_step :
    {B : Type 0} (bytes : List ℕ) (next : List ℕ × List ℕ → Result FilterErrorKind (B × List ℕ))
    (n : ℕ)
    → length bytes ≤ n
    → ((a : List ℕ) (left : List ℕ) → length left ≤ n → IsWithin (next (a, left)) n)
    → IsWithin (reading (array 40) bytes >>= next) n
label_step bytes next n h more =
    bind-IsWithin (reading (array 40) bytes) next n
      (weaker (reading (array 40) bytes) (length bytes - 40) n (omega arith)
        (reading_label-IsWithin bytes))
      more

read_payload-IsWithin :
    (tag : ℕ) (bytes : List ℕ) (n : ℕ) → length bytes ≤ n → IsWithin (read_payload tag bytes) n
unfolding read_payload
read_payload-IsWithin tag bytes n h =
    if-IsWithin (tag == 0x01) _ _ n (uint_step 2 bytes _ n h (λ a left k. k)) (
      if-IsWithin (tag == 0x02) _ _ n
        (uint_step 1 bytes _ n h (λ a left k. then-IsWithin _ _ left n k))
        (if-IsWithin (tag == 0x03) _ _ n (uint_step 2 bytes _ n h (λ a left k. k)) (
          if-IsWithin (tag == 0x04) _ _ n (uint_step 8 bytes _ n h (λ a left k. k)) (
            if-IsWithin (tag == 0x05) _ _ n
              (uint_step 1 bytes _ n h (λ a left k. then-IsWithin _ _ left n k))
              (if-IsWithin (tag == 0x06) _ _ n (label_step bytes _ n h (λ a left k. k)) tt)))))

-- A filter that is read takes a byte for its tag, so that less is left.
parse-IsWithin : (bytes : List ℕ) → IsWithin (parse bytes) (length bytes - 1)
unfolding parse
parse-IsWithin bytes =
    bind-IsWithin (reading (uint 1) bytes) _ (length bytes - 1) (reading_uint-IsWithin 1 bytes)
      (λ tag left h. read_payload-IsWithin tag left (length bytes - 1) h)

abbrev IsDone : {A : Type 0} → Option A → Type 0
IsDone none = ⊥
IsDone (some a) = Unit

with_first-IsDone :
    (filter : Filter) (o : Option (Result FilterErrorKind (List Filter)))
    → IsDone o
    → IsDone (with_first filter o)
with_first-IsDone filter none h = h
with_first-IsDone filter (some r) h = tt

after-IsDone :
    (r : Result FilterErrorKind (Filter × List ℕ))
    (loop : List ℕ → Option (Result FilterErrorKind (List Filter))) (n : ℕ)
    → IsWithin r n
    → ((left : List ℕ) → length left ≤ n → IsDone (loop left))
    → IsDone (after r loop)
after-IsDone (ok (filter, left)) loop n h k = with_first-IsDone filter (loop left) (k left h)
after-IsDone (err e) loop n h k = tt
after-IsDone panic loop n h k = tt

parse_all-IsDone : (fuel : ℕ) (bytes : List ℕ) → length bytes ≤ fuel → IsDone (parse_all fuel bytes)
unfolding parse_all
parse_all-IsDone fuel [] h = tt
parse_all-IsDone zero (b ∷ bytes) h = absurd (omega arith)
parse_all-IsDone (suc fuel) (b ∷ bytes) h =
    after-IsDone (parse (b ∷ bytes)) _ (length (b ∷ bytes) - 1) (parse-IsWithin (b ∷ bytes))
      (λ left k. parse_all-IsDone fuel left (omega arith))

-- With as much fuel as there are bytes, the loop that reads filters ends, whatever the bytes are.
pub filter_parse_all-ne-none :
    (fuel : ℕ) (bytes : List ℕ) → length bytes ≤ fuel → parse_all fuel bytes ≢ none
filter_parse_all-ne-none fuel bytes h e = subst IsDone e (parse_all-IsDone fuel bytes h)
