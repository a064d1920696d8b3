-- ===== src/Object/Filter/RoundTrip.antt =====
-- Filters are read back, and reading them ends (src/object/filter.rs).
use yubihsm_rs.Base.{
  ℕ, zero, suc, ◌≤◌, ◌<◌, ◌^◌, ◌≡◌, refl, List, [], ◌∷◌, ◌++◌, length, length-append, All, ok, some,
  arith, ap, ◌∙◌, ◌%◌,
}
use yubihsm_rs.Algorithm.Any as Algorithms
use yubihsm_rs.Object.Types
use yubihsm_rs.Object.Label.{label_size}
use yubihsm_rs.Object.Filter.{
  Filter, algorithm, capabilities, domains, label, id, object_type, serialize, reading,
  read_payload, parse, parse_all, serialize_all,
}
use yubihsm_rs.Wire.{Shape, uint, array, Value, write}
use yubihsm_rs.Wire.Integers.{be_bytes}
use yubihsm_rs.Wire.RoundTrip.{read-write, Holds, IsClosed}

-- Payloads that their fields can hold.
abbrev pub IsWellFormed : Filter → Type 0
IsWellFormed (algorithm _) = Unit
IsWellFormed (capabilities caps) = caps < 2 ^ 64
IsWellFormed (domains doms) = doms < 2 ^ 16
IsWellFormed (label bytes) = length bytes ≡ label_size
IsWellFormed (id number) = number < 2 ^ 16
IsWellFormed (object_type _) = Unit

reading-write :
    (shape : Shape) (v : Value shape) (left : List ℕ)
    → IsClosed shape
    → Holds shape v
    → reading shape (write shape v ++ left) ≡ ok (v, left)
unfolding reading
reading-write shape v left closed h = rw (read-write shape v left closed h)

reading_byte : (b : ℕ) (left : List ℕ) → b < 256 → reading (uint 1) (b ∷ left) ≡ ok (b, left)
unfolding write be_bytes
reading_byte b left h =
    ap (λ x. reading (uint 1) (x ∷ left)) same ∙ reading-write (uint 1) b left tt h
  where
    same : b ≡ b % 256
    same = omega arith

reading_field :
    (n v : ℕ) (left : List ℕ) → v < 256 ^ n → reading (uint n) (be_bytes n v ++ left) ≡ ok (v, left)
unfolding write
reading_field n v left h = reading-write (uint n) v left tt h

reading_label :
    (bytes left : List ℕ)
    → length bytes ≡ label_size
    → reading (array 40) (bytes ++ left) ≡ ok (bytes, left)
unfolding write
reading_label bytes left h = reading-write (array 40) bytes left tt h

-- A filter whose payload fits its field is read back from its bytes, whatever follows them.
pub filter_parse-serialize :
    (filter : Filter) (left : List ℕ)
    → IsWellFormed filter
    → parse (serialize filter ++ left) ≡ ok (filter, left)
unfolding parse serialize read_payload
filter_parse-serialize (algorithm alg) left w =
    rw (reading_byte 5 (Algorithms.to_u8 alg ∷ left) (omega arith)) (
      rw (reading_byte (Algorithms.to_u8 alg) left (Algorithms.to_u8-IsByte alg))
        (rw (Algorithms.from_u8-to_u8 alg)))
filter_parse-serialize (capabilities caps) left w =
    rw (reading_byte 4 (be_bytes 8 caps ++ left) (omega arith)) (rw (reading_field 8 caps left w))
filter_parse-serialize (domains doms) left w =
    rw (reading_byte 3 (be_bytes 2 doms ++ left) (omega arith)) (rw (reading_field 2 doms left w))
filter_parse-serialize (label bytes) left w =
    rw (reading_byte 6 (bytes ++ left) (omega arith)) (rw (reading_label bytes left w))
filter_parse-serialize (id number) left w =
    rw (reading_byte 1 (be_bytes 2 number ++ left) (omega arith))
      (rw (reading_field 2 number left w))
filter_parse-serialize (object_type ty) left w =
    rw (reading_byte 2 (Types.to_u8 ty ∷ left) (omega arith)) (
      rw (reading_byte (Types.to_u8 ty) left (Types.to_u8-IsByte ty)) (rw (Types.from_u8-to_u8 ty)))

serialize-length : (filter : Filter) → 1 ≤ length (serialize filter)
unfolding serialize
serialize-length (algorithm alg) = omega arith
serialize-length (capabilities caps) = omega arith
serialize-length (domains doms) = omega arith
serialize-length (label bytes) = omega arith
serialize-length (id number) = omega arith
serialize-length (object_type ty) = omega arith

parse_all_step :
    (fuel : ℕ) (bytes left : List ℕ) (filter : Filter) (filters : List Filter)
    → 1 ≤ length bytes
    → parse bytes ≡ ok (filter, left)
    → parse_all fuel left ≡ some (ok filters)
    → parse_all (suc fuel) bytes ≡ some (ok (filter ∷ filters))
unfolding parse_all
parse_all_step fuel [] left filter filters h first more = absurd (omega arith)
parse_all_step fuel (b ∷ bytes) left filter filters h first more = rw (first, parse_all) (rw more)

-- Filters whose payloads fit their fields are read back from their bytes, with any fuel that is at
-- least the number of the bytes.
pub filter_parse_all-serialize_all :
    (fuel : ℕ) (filters : List Filter)
    → All IsWellFormed filters
    → length (serialize_all filters) ≤ fuel
    → parse_all fuel (serialize_all filters) ≡ some (ok filters)
unfolding parse_all serialize_all
filter_parse_all-serialize_all fuel [] w h = refl
filter_parse_all-serialize_all zero (filter ∷ filters) w h = absurd (
    omega
      (arith, length-append (serialize filter) (serialize_all filters), serialize-length filter))
filter_parse_all-serialize_all (suc fuel) (filter ∷ filters) w h =
    parse_all_step fuel (serialize filter ++ serialize_all filters) (serialize_all filters) filter
      filters
      (omega
        (arith, length-append (serialize filter) (serialize_all filters), serialize-length filter))
      (filter_parse-serialize filter (serialize_all filters) w.0)
      (filter_parse_all-serialize_all fuel filters w.1 (
        omega (
          arith,
          length-append (serialize filter) (serialize_all filters),
          serialize-length filter,
        )))
