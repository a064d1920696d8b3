-- ===== src/Wrap/Info.antt =====
-- What is known of a wrapped object, and its bytes (src/wrap/info.rs, with the types of
-- src/object). `serde` reads a field of an enumeration from its byte.
use yubihsm_rs.Base.{ℕ, ◌<◌, ◌^◌, ◌≡◌, Option, none, some, Result, ok, err, panic, length}
use yubihsm_rs.Algorithm.Any as Algorithms
use yubihsm_rs.Algorithm.Any.{Algorithm}
use yubihsm_rs.Domain.{Domain}
use yubihsm_rs.Object.Info.{Info, Capability}
use yubihsm_rs.Object.Label.{Label, label_size}
use yubihsm_rs.Object.Origins
use yubihsm_rs.Object.Origins.{Origin}
use yubihsm_rs.Object.Types
use yubihsm_rs.Object.Types.{ObjectType}
use yubihsm_rs.Wire.RoundTrip.{Holds}
use yubihsm_rs.Wire.{Shape, uint, array, pair, Value}

pub record WrapInfo : Type 0 where
  pub capabilities : Capability
  pub object_id : ℕ
  pub length : ℕ
  pub domains : Domain
  pub object_type : ObjectType
  pub algorithm : Algorithm
  pub sequence : ℕ
  pub origin : Origin
  pub label : Label

-- `From<object::Info>`
unfoldable pub from_object : Info → WrapInfo
from_object i = record {
  capabilities = i.capabilities;
  object_id = i.object_id;
  length = i.length;
  domains = i.domains;
  object_type = i.object_type;
  algorithm = i.algorithm;
  sequence = i.sequence;
  origin = i.origin;
  label = i.label;
}

-- `From<Info> for object::Info`
unfoldable pub into_object : WrapInfo → Info
into_object i = record {
  capabilities = i.capabilities;
  object_id = i.object_id;
  length = i.length;
  domains = i.domains;
  object_type = i.object_type;
  algorithm = i.algorithm;
  sequence = i.sequence;
  origin = i.origin;
  label = i.label;
  delegated_capabilities = 0;
}

abbrev pub info_shape : Shape
info_shape = pair (uint 8) (
    pair (uint 2) (
      pair (uint 2)
        (pair (uint 2) (pair (uint 1) (pair (uint 1) (pair (uint 1) (pair (uint 1) (array 40))))))))

unfoldable pub info_value : WrapInfo → Value info_shape
unfolding Types.to_u8 Algorithms.to_u8 Origins.to_u8
info_value i = (
  i.capabilities,
  (
    i.object_id,
    (
      i.length,
      (
        i.domains,
        (
          Types.to_u8 i.object_type,
          (Algorithms.to_u8 i.algorithm, (i.sequence, (Origins.to_u8 i.origin, i.label))),
        ),
      ),
    ),
  ),
)

-- A field that is read from its byte, or the message is refused.
unfoldable pub field : {E A B : Type 0} → Result E A → (A → Option B) → Option B
field (ok a) next = next a
field (err _) next = none
field panic next = none

unfoldable pub info_of : Value info_shape → Option WrapInfo
unfolding field Types.from_u8 Algorithms.from_u8 Origins.from_u8
info_of
      (
        capabilities,
        (
          object_id,
          (size, (domains, (type_byte, (algorithm_byte, (sequence, (origin_byte, label)))))),
        ),
      ) =
    field (Types.from_u8 type_byte) (λ object_type.
      field (Algorithms.from_u8 algorithm_byte) (λ algorithm.
        field (Origins.from_u8 origin_byte) (λ origin. some (record {
          capabilities = capabilities;
          object_id = object_id;
          length = size;
          domains = domains;
          object_type = object_type;
          algorithm = algorithm;
          sequence = sequence;
          origin = origin;
          label = label;
        }))))

pub info_of-info_value : (i : WrapInfo) → info_of (info_value i) ≡ some i
unfolding info_of info_value field
info_of-info_value i =
    rw (Types.from_u8-to_u8 i.object_type)
      (rw (Algorithms.from_u8-to_u8 i.algorithm) (rw (Origins.from_u8-to_u8 i.origin)))

-- Numbers that their fields can hold, and a label of full length.
pub record IsWellFormed (i : WrapInfo) : Type 0 where
  pub capabilities_lt : i.capabilities < 2 ^ 64
  pub object_id_lt : i.object_id < 2 ^ 16
  pub length_lt : i.length < 2 ^ 16
  pub domains_lt : i.domains < 2 ^ 16
  pub sequence_lt : i.sequence < 2 ^ 8
  pub label_full : length i.label ≡ label_size

pub info_value-Holds : (i : WrapInfo) → IsWellFormed i → Holds info_shape (info_value i)
unfolding info_value
info_value-Holds i w = (
  w.capabilities_lt,
  (
    w.object_id_lt,
    (
      w.length_lt,
      (
        w.domains_lt,
        (
          Types.to_u8-IsByte i.object_type,
          (
            Algorithms.to_u8-IsByte i.algorithm,
            (w.sequence_lt, (Origins.to_u8-IsByte i.origin, w.label_full)),
          ),
        ),
      ),
    ),
  ),
)
