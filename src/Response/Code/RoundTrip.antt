-- ===== src/Response/Code/RoundTrip.antt =====
-- Response codes read back (src/response/code.rs), and which bytes `Deserialize` accepts.
use yubihsm_rs.Base.{
  ℕ, ◌-◌, ◌≤◌, ◌<◌, ◌≡◌, ◌≢◌, ◌↔◌, refl, ap, ◌∙◌, sym, Bool, true, false, not, ◌&&◌, Result, ok,
  err, panic, is_panic, is_err, is_panic_iff, arith, if◌then◌else◌, ◌==◌, leb,
}
use yubihsm_rs.Base.Tables.{holds_below, holds_below_at}
use yubihsm_rs.Command.Code as Command
use yubihsm_rs.Command.Code.{CommandCode}
use yubihsm_rs.Command.Error.{CommandErrorKind, code_invalid}
use yubihsm_rs.Response.Error.{ResponseErrorKind}
use yubihsm_rs.Response.Code.{
  ResponseCode, success, memory_error, to_u8, from_u8, from_negative, deserialize,
}

abbrev ResponseErrors : Type 0
ResponseErrors = Result ResponseErrorKind ResponseCode

is_initialization : ResponseCode → Bool
is_initialization (success CommandCode.hsm_initialization) = true
is_initialization _ = false

-- Whether a read of a byte gives a code that is written as that byte.
written_back : ResponseErrors → ℕ → Bool
unfolding to_u8 is_initialization
written_back (ok value) byte =
    to_u8 value == byte && (if is_initialization value then false else true)
written_back (err _) byte = true
written_back panic byte = true

from_u8-to_u8 :
    (value : ResponseCode) → is_initialization value ≡ false → from_u8 (to_u8 value) ≡ ok value
unfolding from_u8 from_negative Command.from_u8 to_u8 is_initialization
from_u8-to_u8 (success CommandCode.hsm_initialization) h = cc
from_u8-to_u8 (success _) h = refl
from_u8-to_u8 memory_error h = refl
from_u8-to_u8 _ h = refl

written_ok :
    (value : ResponseCode) (byte : ℕ)
    → written_back (ok value) byte ≡ true
    → (to_u8 value ≡ byte) × (is_initialization value ≡ false)
written_ok value byte p = split (to_u8 value) (is_initialization value) (unfold written_back in p)
  where
    split :
        (n : ℕ) (b : Bool)
        → (n == byte && (if b then false else true)) ≡ true
        → (n ≡ byte) × (b ≡ false)
    split n b q = ground arith

read_table : holds_below 256 (λ byte. written_back (from_u8 byte) byte) ≡ true
unfolding holds_below written_back from_u8 from_negative Command.from_u8
read_table = refl

to_u8-from_u8 :
    (byte : ℕ) (value : ResponseCode)
    → byte < 256
    → from_u8 byte ≡ ok value
    → (to_u8 value ≡ byte) × (is_initialization value ≡ false)
to_u8-from_u8 byte value h e = taken (rw e at seen)
  where
    seen : written_back (from_u8 byte) byte ≡ true
    seen = holds_below_at 256 (λ b. written_back (from_u8 b) b) byte read_table h

    taken :
        written_back (ok value) byte ≡ true
        → (to_u8 value ≡ byte) × (is_initialization value ≡ false)
    taken p = written_ok value byte p

initialization_only :
    (value : ResponseCode)
    → value ≢ success CommandCode.hsm_initialization
    → is_initialization value ≡ false
unfolding is_initialization
initialization_only (success CommandCode.hsm_initialization) h = absurd (h refl)
initialization_only (success _) h = refl
initialization_only memory_error h = refl
initialization_only _ h = refl

initialization_ne :
    (value : ResponseCode)
    → is_initialization value ≡ false
    → value ≢ success CommandCode.hsm_initialization
unfolding is_initialization
initialization_ne value h e = cc (ap is_initialization e)

-- A byte is read as a response code exactly when it is the byte that is written for the code and
-- the code is not the success of `HsmInitialization`.
pub response_code_from_u8_iff :
    (byte : ℕ) (value : ResponseCode)
    → byte < 256
    → (from_u8 byte ≡ ok value)
      ↔ ((to_u8 value ≡ byte) × (value ≢ success CommandCode.hsm_initialization))
response_code_from_u8_iff byte value h = (
  λ e. ((to_u8-from_u8 byte value h e).0, initialization_ne value (to_u8-from_u8 byte value h e).1),
  λ p. sym (ap from_u8 p.0) ∙ from_u8-to_u8 value (initialization_only value p.1),
)

-- The byte written for the success of `HsmInitialization` is that of `MemoryError`.
pub initialization_collides : to_u8 (success CommandCode.hsm_initialization) ≡ to_u8 memory_error
unfolding to_u8
initialization_collides = refl

panics_as_stated : ℕ → Bool
panics_as_stated byte =
    if leb 0x80 byte && is_err (Command.from_u8 (byte - 0x80))
    then is_panic (deserialize byte)
    else not (is_panic (deserialize byte))

panic_table : holds_below 256 panics_as_stated ≡ true
unfolding holds_below panics_as_stated deserialize from_u8 from_negative Command.from_u8
panic_table = refl

is_panic-deserialize :
    (byte : ℕ)
    → byte < 256
    → is_panic (deserialize byte) ≡ (leb 0x80 byte && is_err (Command.from_u8 (byte - 0x80)))
unfolding panics_as_stated
is_panic-deserialize byte h = ground (arith, holds_below_at 256 panics_as_stated byte panic_table h)

-- In a build with overflow checks, reading a code by `Deserialize` panics (the subtraction
-- overflows) exactly on the bytes from 0x80 on whose lower part is no command code.
pub deserialize_panic_iff :
    (byte : ℕ)
    → byte < 256
    → (deserialize byte ≡ panic)
      ↔ ((0x80 ≤ byte) × (Command.from_u8 (byte - 0x80) ≡ err code_invalid))
deserialize_panic_iff byte h = (
  λ e. ground (
    arith,
    is_panic-deserialize byte h,
    (is_panic_iff (deserialize byte)).0 e,
    only_error (Command.from_u8 (byte - 0x80)),
  ),
  λ p. (is_panic_iff (deserialize byte)).1 (ground (arith, is_panic-deserialize byte h, p.0, p.1)),
)
  where
    only_error : (r : Result CommandErrorKind CommandCode) → is_err r ≡ true → r ≡ err code_invalid
    only_error (err code_invalid) q = refl
    only_error (ok _) q = cc
    only_error panic q = cc

from_negative-ne-panic : (n : ℕ) → from_negative n ≢ panic
unfolding from_negative
from_negative-ne-panic n = ground arith

pub from_u8-ne-panic : (byte : ℕ) → from_u8 byte ≢ panic
unfolding from_u8
from_u8-ne-panic byte =
    ground (arith, Command.from_u8-ne-panic (byte - 0x80), from_negative-ne-panic (0x80 - byte))

pub to_u8-lt : (value : ResponseCode) → to_u8 value < 256
unfolding to_u8
to_u8-lt (success c) = omega arith
to_u8-lt memory_error = omega arith
to_u8-lt _ = omega arith
