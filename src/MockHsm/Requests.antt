-- ===== src/MockHsm/Requests.antt =====
-- Reading the data of requests and writing that of responses (the `commands` of src/object,
-- src/asymmetric, src/authentication, src/hmac, src/opaque, src/wrap, src/device, src/audit,
-- src/ecdsa, src/ed25519 and src/rsa, with src/response.rs). The handlers of the simulated device
-- panic on data that they cannot read.
use yubihsm_rs.Base.{
  ℕ, ◌<◌, ◌^◌, ◌≡◌, Option, none, some, List, [], ◌∷◌, ◌++◌, length, Result, expect,
}
use yubihsm_rs.Base.Actions.{Action}
use yubihsm_rs.Base.Programs.{pure, lift}
use yubihsm_rs.Algorithm.Any as Algorithms
use yubihsm_rs.Command.Code.{CommandCode}
use yubihsm_rs.Device.Error.{DeviceErrorKind}
use yubihsm_rs.Object.Info.{Params, Info, Entry}
use yubihsm_rs.Object.Label.{label_size}
use yubihsm_rs.Object.Types
use yubihsm_rs.Object.Types.{ObjectType}
use yubihsm_rs.Response.Message as Response
use yubihsm_rs.Response.Message.{ResponseMessage}
use yubihsm_rs.Wire.{Shape, uint, array, rest, pair, Value, write, deserialize}
use yubihsm_rs.Wire.RoundTrip.{Holds}
use yubihsm_rs.Wrap.Info.{info_shape, info_value, from_object, field}

-- `deserialize(cmd_data).unwrap_or_else(|e| panic!(..))`
unfoldable pub parsed :
    {E A : Type 0} (shape : Shape) → (Value shape → Option A) → List ℕ → Result E A
unfolding field
parsed shape of bytes = expect (field (deserialize shape bytes) of)

-- `serialize` of a response
unfoldable pub success : {E S : Type 0} → CommandCode → List ℕ → Action E S ResponseMessage
success code bytes = pure (Response.success code bytes)

-- `kind.into()`
unfoldable pub refused : {E S : Type 0} → DeviceErrorKind → Action E S ResponseMessage
refused kind = lift (Response.from_error kind)

-- `object::put::Params` and `object::generate::Params`
abbrev pub params_shape : Shape
params_shape = pair (uint 2) (pair (array 40) (pair (uint 2) (pair (uint 8) (uint 1))))

unfoldable pub params_value : Params → Value params_shape
unfolding Algorithms.to_u8
params_value p = (p.id, (p.label, (p.domains, (p.capabilities, Algorithms.to_u8 p.algorithm))))

unfoldable pub params_of : Value params_shape → Option Params
unfolding field Algorithms.from_u8
params_of (id, (label, (domains, (capabilities, algorithm_byte)))) =
    field (Algorithms.from_u8 algorithm_byte) (λ algorithm. some (record {
      id = id;
      label = label;
      domains = domains;
      capabilities = capabilities;
      algorithm = algorithm;
    }))

-- An object's number and its type: `DeleteObjectCommand`, and the `Handle` of
-- `GetObjectInfoCommand`.
abbrev pub handle_shape : Shape
handle_shape = pair (uint 2) (uint 1)

unfoldable pub handle_of : Value handle_shape → Option (ℕ × ObjectType)
unfolding field Types.from_u8
handle_of (object_id, type_byte) =
    field (Types.from_u8 type_byte) (λ object_type. some (object_id, object_type))

-- `PutAsymmetricKeyCommand`, `PutHmacKeyCommand` and `PutOpaqueCommand`
abbrev pub put_shape : Shape
put_shape = pair params_shape rest

unfoldable pub put_of : Value put_shape → Option (Params × List ℕ)
unfolding params_of
put_of (params, bytes) = elim (params_of params) [ none ↦ none | some p ↦ some (p, bytes) ]

-- `PutWrapKeyCommand`; `PutAuthenticationKeyCommand` has a key of 32 bytes at its end.
abbrev pub put_delegating_shape : Shape → Shape
put_delegating_shape key = pair params_shape (pair (uint 8) key)

unfoldable pub put_delegating_of :
    (key : Shape) → Value (put_delegating_shape key) → Option (Params × (ℕ × Value key))
unfolding params_of
put_delegating_of key (params, more) = elim (params_of params) [
  | none ↦ none
  | some p ↦ some (p, more)
]

-- `GenWrapKeyCommand`
abbrev pub gen_wrap_shape : Shape
gen_wrap_shape = pair params_shape (uint 8)

unfoldable pub gen_wrap_of : Value gen_wrap_shape → Option (Params × ℕ)
unfolding params_of
gen_wrap_of (params, delegated) = elim (params_of params) [
  | none ↦ none
  | some p ↦ some (p, delegated)
]

-- `ExportWrappedCommand`: the wrap key, the type and the number of the object.
abbrev pub export_shape : Shape
export_shape = pair (uint 2) (pair (uint 1) (uint 2))

unfoldable pub export_of : Value export_shape → Option (ℕ × (ObjectType × ℕ))
unfolding field Types.from_u8
export_of (wrap_key_id, (type_byte, object_id)) =
    field (Types.from_u8 type_byte) (λ object_type. some (wrap_key_id, (object_type, object_id)))

-- `ImportWrappedCommand`
abbrev pub import_shape : Shape
import_shape = pair (uint 2) (pair (array 13) rest)

-- The number of an object, and data: the commands that sign, and `VerifyHmacCommand`, whose tag
-- takes all the data that there is.
abbrev pub keyed_shape : Shape
keyed_shape = pair (uint 2) rest

-- A number of an object, in a request or a response.
unfoldable pub id_bytes : ℕ → List ℕ
id_bytes id = write (uint 2) id

-- `GetObjectInfoResponse`
unfoldable pub object_info_bytes : Info → List ℕ
unfolding info_value from_object
object_info_bytes info =
    write (pair info_shape (uint 8)) (info_value (from_object info), info.delegated_capabilities)

-- `ListObjectsResponse`: four bytes for each entry.
unfoldable pub entries_bytes : List Entry → List ℕ
unfolding Types.to_u8
entries_bytes [] = []
entries_bytes (entry ∷ entries) =
    write (pair (uint 2) (pair (uint 1) (uint 1)))
      (entry.object_id, (Types.to_u8 entry.object_type, entry.sequence))
    ++ entries_bytes entries

-- Numbers that their fields can hold, and a label of full length.
pub record IsWellFormed (p : Params) : Type 0 where
  pub id_lt : p.id < 2 ^ 16
  pub label_full : length p.label ≡ label_size
  pub domains_lt : p.domains < 2 ^ 16
  pub capabilities_lt : p.capabilities < 2 ^ 64

pub params_of-params_value : (p : Params) → params_of (params_value p) ≡ some p
unfolding params_of params_value field
params_of-params_value p = rw (Algorithms.from_u8-to_u8 p.algorithm)

pub params_value-Holds : (p : Params) → IsWellFormed p → Holds params_shape (params_value p)
unfolding params_value
params_value-Holds p w = (
  w.id_lt,
  (w.label_full, (w.domains_lt, (w.capabilities_lt, Algorithms.to_u8-IsByte p.algorithm))),
)
