-- ===== src/Object/Filter.antt =====
-- Filters of a listing of objects, and their bytes (src/object/filter.rs). Every bit of a set of
-- domains or of capabilities has a name, so that no number is refused as one.
pub mod RoundTrip
pub mod Ends
mod Tests
use yubihsm_rs.Base.{
  ℕ, List, ◌∷◌, [], ◌++◌, Result, ok, err, panic, ◌>>=◌, map_err, if◌then◌else◌, ◌==◌, zero, suc,
  Option, none, some,
}
use yubihsm_rs.Algorithm.Any as Algorithms
use yubihsm_rs.Algorithm.Any.{Algorithm}
use yubihsm_rs.Domain.{Domain}
use yubihsm_rs.Object.Info.{Capability}
use yubihsm_rs.Object.Label.{Label}
use yubihsm_rs.Object.Types
use yubihsm_rs.Object.Types.{ObjectType}
use yubihsm_rs.Wire.{Shape, uint, array, Value, read}
use yubihsm_rs.Wire.Integers.{be_bytes}

pub data Filter : Type 0 where
  algorithm : Algorithm → Filter
  capabilities : Capability → Filter
  domains : Domain → Filter
  label : Label → Filter
  id : ℕ → Filter
  object_type : ObjectType → Filter

-- The kinds of `client::Error` that reading a filter returns: a value that no filter has, and
-- input that ends early.
pub data FilterErrorKind : Type 0 where
  protocol_error io_error : FilterErrorKind

unfoldable pub tag : Filter → ℕ
tag (id _) = 0x01
tag (object_type _) = 0x02
tag (domains _) = 0x03
tag (capabilities _) = 0x04
tag (algorithm _) = 0x05
tag (label _) = 0x06

payload : Filter → List ℕ
payload (algorithm alg) = Algorithms.to_u8 alg ∷ []
payload (capabilities caps) = be_bytes 8 caps
payload (domains doms) = be_bytes 2 doms
payload (label bytes) = bytes
payload (id number) = be_bytes 2 number
payload (object_type ty) = Types.to_u8 ty ∷ []

-- What `serialize` appends to its writer.
unfoldable pub serialize : Filter → List ℕ
unfolding tag payload Algorithms.to_u8 Types.to_u8
serialize filter = tag filter ∷ payload filter

-- `read_byte!`, `read_be_bytes!` and `read_exact`, with what is left.
unfoldable pub reading : (shape : Shape) → List ℕ → Result FilterErrorKind (Value shape × List ℕ)
reading shape bytes = map_err (λ _. io_error) (read shape bytes)

-- The payload behind a tag.
unfoldable pub read_payload : ℕ → List ℕ → Result FilterErrorKind (Filter × List ℕ)
unfolding reading Algorithms.from_u8 Types.from_u8
read_payload tag bytes =
    if tag == 0x01
    then (do (number, left) ← reading (uint 2) bytes; ok (id number, left))
    else if tag == 0x02
    then (do
      (byte, left) ← reading (uint 1) bytes
      ty ← map_err (λ _. protocol_error) (Types.from_u8 byte)
      ok (object_type ty, left))
    else if tag == 0x03
    then (do (doms, left) ← reading (uint 2) bytes; ok (domains doms, left))
    else if tag == 0x04
    then (do (caps, left) ← reading (uint 8) bytes; ok (capabilities caps, left))
    else if tag == 0x05
    then (do
      (byte, left) ← reading (uint 1) bytes
      alg ← map_err (λ _. protocol_error) (Algorithms.from_u8 byte)
      ok (algorithm alg, left))
    else if tag == 0x06
    then (do (label_bytes, left) ← reading (array 40) bytes; ok (label label_bytes, left))
    else err protocol_error

unfoldable pub parse : List ℕ → Result FilterErrorKind (Filter × List ℕ)
unfolding reading
parse bytes = do (tag, left) ← reading (uint 1) bytes; read_payload tag left

-- A filter in front of those that the rest of the loop reads.
abbrev pub with_first :
    Filter
    → Option (Result FilterErrorKind (List Filter))
    → Option (Result FilterErrorKind (List Filter))
with_first filter none = none
with_first filter (some r) = some (r >>= λ filters. ok (filter ∷ filters))

-- One turn of the loop: an error ends it.
abbrev pub after :
    Result FilterErrorKind (Filter × List ℕ)
    → (List ℕ → Option (Result FilterErrorKind (List Filter)))
    → Option (Result FilterErrorKind (List Filter))
after (ok (filter, left)) loop = with_first filter (loop left)
after (err e) loop = some (err e)
after panic loop = some panic

-- The loop of `list_objects` (src/mockhsm/command.rs), which reads filters up to the end, with
-- fuel: none if the fuel does not do.
unfoldable pub parse_all : ℕ → List ℕ → Option (Result FilterErrorKind (List Filter))
parse_all fuel [] = some (ok [])
parse_all zero (b ∷ bytes) = none
parse_all (suc fuel) (b ∷ bytes) = after (parse (b ∷ bytes)) (λ left. parse_all fuel left)

-- What the client sends for a list of filters.
unfoldable pub serialize_all : List Filter → List ℕ
serialize_all [] = []
serialize_all (filter ∷ filters) = serialize filter ++ serialize_all filters
