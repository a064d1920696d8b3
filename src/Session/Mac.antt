-- ===== src/Session/Mac.antt =====
-- Truncated message authentication codes (src/session/securechannel/mac.rs).
use yubihsm_rs.Base.{
  ℕ, ◌≡◌, Result, ok, err, panic, ◌>>=◌, List, length, take, bytes_eq, bytes_eq_refl, if◌then◌else◌,
  ◌==◌, arith, length-take,
}
use yubihsm_rs.Session.Error.{SessionErrorKind, verify_failed}

-- The array `[u8; 8]`.
abbrev pub Mac : Type 0
Mac = List ℕ

abbrev pub byte_size : ℕ
byte_size = 8

unfoldable pub from_slice : {E : Type 0} → List ℕ → Result E Mac
from_slice slice = if length slice == byte_size then ok slice else panic

-- The first eight bytes of a tag.
unfoldable pub truncate : List ℕ → Mac
truncate array = take byte_size array

-- `From<&GenericArray<u8, U16>>`
unfoldable pub from_tag : {E : Type 0} → List ℕ → Result E Mac
unfolding from_slice
from_tag array = from_slice (truncate array)

-- The comparison is in constant time; its result is that of `==`.
unfoldable pub verify : Mac → List ℕ → Result SessionErrorKind (Unit {0})
verify mac other = do
  expected ← from_tag other
  if bytes_eq mac expected then ok tt else err verify_failed

pub from_slice_eight : {E : Type 0} (l : List ℕ) → length l ≡ 8 → from_slice {E = E} l ≡ ok l
unfolding from_slice
from_slice_eight l h = ground arith

pub length-truncate : (tag : List ℕ) → length tag ≡ 16 → length (truncate tag) ≡ 8
unfolding truncate
length-truncate tag h = omega (arith, length-take 8 tag)

pub from_tag_sixteen :
    {E : Type 0} (tag : List ℕ) → length tag ≡ 16 → from_tag {E = E} tag ≡ ok (truncate tag)
unfolding from_tag
from_tag_sixteen tag h = from_slice_eight (truncate tag) (length-truncate tag h)

-- A tag passes exactly against its own first bytes.
pub verify_own : (tag : List ℕ) → length tag ≡ 16 → verify (truncate tag) tag ≡ ok tt
unfolding verify
verify_own tag h =
    rw (from_tag_sixteen {E = SessionErrorKind} tag h) (rw (bytes_eq_refl (truncate tag)))
