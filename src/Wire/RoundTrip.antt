-- ===== src/Wire/RoundTrip.antt =====
-- What is written on the wire is read back (src/serialization/ser.rs, de.rs).
use yubihsm_rs.Base.{
  ℕ, ◌<◌, ◌≡◌, ◌^◌, refl, ap, sym, ◌∙◌, ◌↔◌, List, [], ◌∷◌, ◌++◌, length, take, drop, Result, ok,
  append-nil, All, zero, suc, >>=-eq-ok, append_assoc, length-append, take_append, drop_append,
  take-append-drop, length-take, arith, leb, true,
}
use mathlib.Core.Path.{subst}
use yubihsm_rs.Base.Bytes.{IsByte}
use yubihsm_rs.Wire.Integers.{
  be_bytes-be_value, be_bytes, be_value, length-be_bytes, be_value-be_bytes,
}
use yubihsm_rs.Wire.{
  Shape, uint, array, rest, pair, Value, WireError, write, read, read_exact, deserialize,
}

-- Values that their type can hold.
abbrev pub Holds : (shape : Shape) → Value shape → Type 0
Holds (uint n) v = v < 256 ^ n
Holds (array n) bytes = length bytes ≡ n
Holds rest bytes = Unit
Holds (pair a b) (v, w) = Holds a v × Holds b w

-- Shapes of a length of their own.
abbrev pub IsClosed : Shape → Type 0
IsClosed (uint n) = Unit
IsClosed (array n) = Unit
IsClosed rest = ⊥
IsClosed (pair a b) = IsClosed a × IsClosed b

-- Shapes in which only the last field may be the rest of the message.
abbrev pub IsMessage : Shape → Type 0
IsMessage (uint n) = Unit
IsMessage (array n) = Unit
IsMessage rest = Unit
IsMessage (pair a b) = IsClosed a × IsMessage b

read_exact_ok :
    (n : ℕ) (bytes left : List ℕ)
    → length bytes ≡ n
    → read_exact n (bytes ++ left) ≡ ok (bytes, left)
unfolding read_exact
read_exact_ok n bytes left h =
    rw enough (rw (take_append n bytes left (sym h)) (rw (drop_append n bytes left (sym h))))
  where
    enough : leb n (length (bytes ++ left)) ≡ true
    enough = ground (arith, length-append bytes left)

-- A value of a closed shape is read back from what is written for it, whatever follows it, and
-- what follows it is left.
pub read-write :
    (shape : Shape) (v : Value shape) (left : List ℕ)
    → IsClosed shape
    → Holds shape v
    → read shape (write shape v ++ left) ≡ ok (v, left)
unfolding read write
read-write (uint n) v left closed h =
    rw (read_exact_ok n (be_bytes n v) left (length-be_bytes n v)) (rw (be_value-be_bytes n v h))
read-write (array n) bytes left closed h = read_exact_ok n bytes left h
read-write rest bytes left closed h = absurd closed
read-write (pair a b) (v, w) left closed h =
    rw (append_assoc (write a v) (write b w) left)
      (rw (read-write a v (write b w ++ left) closed.0 h.0) (rw (read-write b w left closed.1 h.1)))

read-write_end :
    (shape : Shape) (v : Value shape)
    → IsMessage shape
    → Holds shape v
    → read shape (write shape v) ≡ ok (v, [])
unfolding read write
read-write_end (uint n) v message h =
    sym (ap (read (uint n)) (append-nil (be_bytes n v))) ∙ read-write (uint n) v [] tt h
read-write_end (array n) bytes message h =
    sym (ap (read (array n)) (append-nil bytes)) ∙ read-write (array n) bytes [] tt h
read-write_end rest bytes message h = refl
read-write_end (pair a b) (v, w) message h =
    rw (read-write a v (write b w) message.0 h.0) (rw (read-write_end b w message.1 h.1))

-- A value that its type can hold is read back from its bytes, by a shape in which only the last
-- field may be the rest of the message.
pub deserialize-write :
    (shape : Shape) (v : Value shape)
    → IsMessage shape
    → Holds shape v
    → deserialize shape (write shape v) ≡ ok v
unfolding deserialize
deserialize-write shape v message h = rw (read-write_end shape v message h)

All-take : (n : ℕ) (bytes : List ℕ) → All IsByte bytes → All IsByte (take n bytes)
All-take zero bytes small = tt
All-take (suc n) [] small = tt
All-take (suc n) (x ∷ xs) small = (small.0, All-take n xs small.1)

All-drop : (n : ℕ) (bytes : List ℕ) → All IsByte bytes → All IsByte (drop n bytes)
All-drop zero bytes small = small
All-drop (suc n) [] small = tt
All-drop (suc n) (x ∷ xs) small = All-drop n xs small.1

pub read_exact_inv :
    (n : ℕ) (bytes first left : List ℕ)
    → read_exact n bytes ≡ ok (first, left)
    → (first ++ left ≡ bytes) × (length first ≡ n) × (take n bytes ≡ first) × (drop n bytes ≡ left)
unfolding read_exact
read_exact_inv n bytes first left e = ground (arith, take-append-drop n bytes, length-take n bytes)

ok_pair :
    {A B : Type 0} {a a' : A} {b b' : B}
    → ◌≡◌ {A = Result WireError (A × B)} (ok (a, b)) (ok (a', b'))
    → (a ≡ a') × (b ≡ b')
ok_pair e = (cc, cc)

uint_inv :
    (n : ℕ) (bytes : List ℕ) (v : ℕ) (left : List ℕ)
    → read (uint n) bytes ≡ ok (v, left)
    → (first : List ℕ) × (read_exact n bytes ≡ ok (first, left)) × (be_value 0 first ≡ v)
unfolding read
uint_inv n bytes v left e =
    let (r, taken, same) = >>=-eq-ok (read_exact n bytes) _ e in
    let (value, end) = ok_pair same in (r.0, taken ∙ ap (λ l. ok (r.0, l)) end, value)

pair_inv :
    (a b : Shape) (bytes : List ℕ) (v : Value a) (w : Value b) (left : List ℕ)
    → read (pair a b) bytes ≡ ok ((v, w), left)
    → (middle : List ℕ) × (read a bytes ≡ ok (v, middle)) × (read b middle ≡ ok (w, left))
unfolding read
pair_inv a b bytes v w left e =
    let (r, first, more) = >>=-eq-ok (read a bytes) _ e in
    let (q, second, same) = >>=-eq-ok (read b r.1) _ more in
    let (values, end) = ok_pair same in
    (
      r.1,
      first ∙ ap (λ u. ok (u.0, r.1)) values,
      second ∙ ap (λ u. ok (u, q.1)) (ap (λ u. u.1) values) ∙ ap (λ l. ok (w, l)) end,
    )

be_bytes-same :
    (n v : ℕ) (first : List ℕ)
    → length first ≡ n
    → be_value 0 first ≡ v
    → be_bytes (length first) (be_value 0 first) ≡ first
    → be_bytes n v ≡ first
be_bytes-same n v first size value digits =
    ap (λ k. be_bytes k v) (sym size) ∙ ap (be_bytes (length first)) (sym value) ∙ digits

-- What is read from bytes is what is written as them, and its type can hold it.
pub read_inv :
    (shape : Shape) (bytes : List ℕ) (v : Value shape) (left : List ℕ)
    → All IsByte bytes
    → read shape bytes ≡ ok (v, left)
    → (write shape v ++ left ≡ bytes) × Holds shape v × All IsByte left
unfolding read write
read_inv (uint n) bytes v left small e =
    let (first, taken, value) = uint_inv n bytes v left e in
    let (whole, size, head, end) = read_exact_inv n bytes first left taken in
    let (digits, bound) =
      be_bytes-be_value first (subst (All IsByte) head (All-take n bytes small)) in
    (
      ap (λ l. l ++ left) (be_bytes-same n v first size value digits) ∙ whole,
      rw (sym size, sym value) bound,
      subst (All IsByte) end (All-drop n bytes small),
    )
read_inv (array n) bytes v left small e =
    let (whole, size, _, end) = read_exact_inv n bytes v left e in
    (whole, size, subst (All IsByte) end (All-drop n bytes small))
read_inv rest bytes v left small e =
    let (value, end) = ok_pair e in
    (ap (λ l. v ++ l) (sym end) ∙ append-nil v ∙ sym value, tt, subst (All IsByte) end tt)
read_inv (pair a b) bytes (v, w) left small e =
    let (middle, first, second) = pair_inv a b bytes v w left e in
    let (whole, holds, small') = read_inv a bytes v middle small first in
    let (whole', holds', small'') = read_inv b middle w left small' second in
    (
      append_assoc (write a v) (write b w) left ∙ ap (λ l. write a v ++ l) whole' ∙ whole,
      (holds, holds'),
      small'',
    )

-- A value and a remainder are read from bytes by a closed shape exactly when the bytes are what is
-- written for the value, the remainder behind it, and the type can hold the value.
pub read_iff :
    (shape : Shape) (bytes : List ℕ) (v : Value shape) (left : List ℕ)
    → IsClosed shape
    → All IsByte bytes
    → (read shape bytes ≡ ok (v, left)) ↔ ((write shape v ++ left ≡ bytes) × Holds shape v)
read_iff shape bytes v left closed small = (
  λ e. let (whole, holds, _) = read_inv shape bytes v left small e in (whole, holds),
  λ p. sym (ap (read shape) p.0) ∙ read-write shape v left closed p.1,
)
