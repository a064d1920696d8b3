-- ===== src/Wire.antt =====
-- The wire format of typed requests and responses (src/serialization/ser.rs, de.rs, and the macro
-- of src/serialization.rs). `serde` derives a (de)serializer from a type; a `Shape` says what such
-- a type is made of, and `write` and `read` are what the derived code does with a value.
pub mod Integers
pub mod RoundTrip
mod Tests
use yubihsm_rs.Base.{
  ℕ, ◌+◌, ◌*◌, ◌<◌, ◌≡◌, ◌^◌, List, [], ◌∷◌, ◌++◌, length, take, drop, Result, ok, err, ◌>>=◌, ◌>>◌,
  ensure, leb, All,
}
use yubihsm_rs.Base.Bytes.{IsByte}
use yubihsm_rs.Wire.Integers.{be_bytes, be_value}

-- The only error that the deserializers of these shapes return: the input ends early.
pub data WireError : Type 0 where
  end_of_stream : WireError

pub data Shape : Type 0 where
  -- `u8`, `u16`, `u32`, `u64`, by the number of bytes.
  uint : ℕ → Shape
  -- An array of bytes (`impl_array_serializers!`).
  array : ℕ → Shape
  -- `Vec<u8>`: the rest of the message.
  rest : Shape
  -- Two fields of a struct or a tuple, in order.
  pair : Shape → Shape → Shape

abbrev pub Value : Shape → Type 0
Value (uint n) = ℕ
Value (array n) = List ℕ
Value rest = List ℕ
Value (pair a b) = Value a × Value b

unfoldable pub write : (shape : Shape) → Value shape → List ℕ
write (uint n) v = be_bytes n v
write (array n) bytes = bytes
write rest bytes = bytes
write (pair a b) (v, w) = write a v ++ write b w

-- `read_exact` of a number of bytes, and what is left.
unfoldable pub read_exact : ℕ → List ℕ → Result WireError (List ℕ × List ℕ)
read_exact n bytes = do ensure (leb n (length bytes)) end_of_stream; ok (take n bytes, drop n bytes)

unfoldable pub read : (shape : Shape) → List ℕ → Result WireError (Value shape × List ℕ)
read (uint n) bytes = do (first, left) ← read_exact n bytes; ok (be_value 0 first, left)
read (array n) bytes = read_exact n bytes
read rest bytes = ok (bytes, [])
read (pair a b) bytes = do (v, left) ← read a bytes; (w, left') ← read b left; ok ((v, w), left')

-- `deserialize`: what is left of the message is dropped.
unfoldable pub deserialize : (shape : Shape) → List ℕ → Result WireError (Value shape)
deserialize shape bytes = do (v, left) ← read shape bytes; ok v
