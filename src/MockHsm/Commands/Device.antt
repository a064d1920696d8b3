-- ===== src/MockHsm/Commands/Device.antt =====
-- Handlers of the simulated device about the device itself (src/mockhsm/command.rs).
use yubihsm_rs.Base.{ℕ, List, [], ◌∷◌, ◌++◌, Result, panic, unwrap, map, ◌==◌, Option, none, some}
use yubihsm_rs.Base.Programs.{get, modify, lift, assert, ◌>>=◌, ◌>>◌}
use yubihsm_rs.Algorithm.Any as Algorithms
use yubihsm_rs.Algorithm.Any.{Algorithm}
use yubihsm_rs.Algorithm.Asymmetric.{AsymmetricAlgorithm}
use yubihsm_rs.Algorithm.Authentication.{AuthenticationAlgorithm}
use yubihsm_rs.Algorithm.Ecdh.{EcdhAlgorithm}
use yubihsm_rs.Algorithm.Ecdsa.{EcdsaAlgorithm}
use yubihsm_rs.Algorithm.Hmac.{HmacAlgorithm}
use yubihsm_rs.Algorithm.Mgf.{MgfAlgorithm}
use yubihsm_rs.Algorithm.Oaep.{OaepAlgorithm}
use yubihsm_rs.Algorithm.Opaque.{OpaqueAlgorithm}
use yubihsm_rs.Algorithm.Otp.{OtpAlgorithm}
use yubihsm_rs.Algorithm.Pkcs1.{Pkcs1Algorithm}
use yubihsm_rs.Algorithm.Pss.{PssAlgorithm}
use yubihsm_rs.Algorithm.Rsa.{RsaAlgorithm}
use yubihsm_rs.Algorithm.Template.{TemplateAlgorithm}
use yubihsm_rs.Algorithm.Wrap.{WrapAlgorithm}
use yubihsm_rs.Audit.Option as AuditOptions
use yubihsm_rs.Audit.Option.{AuditOption}
use yubihsm_rs.Audit.Tag as AuditTags
use yubihsm_rs.Audit.Tag.{AuditTag}
use yubihsm_rs.Command.Code as CommandCodes
use yubihsm_rs.Command.Code.{CommandCode}
use yubihsm_rs.Response.Message.{ResponseMessage}
use yubihsm_rs.Wrap.Info.{field}
use yubihsm_rs.MockHsm.Keys.{Keys}
use yubihsm_rs.MockHsm.Requests.{parsed, success}
use yubihsm_rs.MockHsm.State as State
use yubihsm_rs.MockHsm.State.{Hsm}
use yubihsm_rs.Wire.{Shape, uint, rest, pair, Value, write}

-- `MOCK_SERIAL_NUMBER`, as `SerialNumber::from_str` reads it.
abbrev pub mock_serial_number : ℕ
mock_serial_number = 0123456789

unfoldable pub mock_algorithms : List Algorithm
mock_algorithms =
    Algorithm.rsa (RsaAlgorithm.pkcs1 Pkcs1Algorithm.sha1)
    ∷ Algorithm.rsa (RsaAlgorithm.pkcs1 Pkcs1Algorithm.sha256)
    ∷ Algorithm.rsa (RsaAlgorithm.pkcs1 Pkcs1Algorithm.sha384)
    ∷ Algorithm.rsa (RsaAlgorithm.pkcs1 Pkcs1Algorithm.sha512)
    ∷ Algorithm.rsa (RsaAlgorithm.pss PssAlgorithm.sha1)
    ∷ Algorithm.rsa (RsaAlgorithm.pss PssAlgorithm.sha256)
    ∷ Algorithm.rsa (RsaAlgorithm.pss PssAlgorithm.sha384)
    ∷ Algorithm.rsa (RsaAlgorithm.pss PssAlgorithm.sha512)
    ∷ Algorithm.asymmetric AsymmetricAlgorithm.rsa2048
    ∷ Algorithm.asymmetric AsymmetricAlgorithm.rsa3072
    ∷ Algorithm.asymmetric AsymmetricAlgorithm.rsa4096
    ∷ Algorithm.asymmetric AsymmetricAlgorithm.ec_p256
    ∷ Algorithm.asymmetric AsymmetricAlgorithm.ec_p384
    ∷ Algorithm.asymmetric AsymmetricAlgorithm.ec_p521
    ∷ Algorithm.asymmetric AsymmetricAlgorithm.ec_k256
    ∷ Algorithm.asymmetric AsymmetricAlgorithm.ec_bp256
    ∷ Algorithm.asymmetric AsymmetricAlgorithm.ec_bp384
    ∷ Algorithm.asymmetric AsymmetricAlgorithm.ec_bp512
    ∷ Algorithm.hmac HmacAlgorithm.sha1
    ∷ Algorithm.hmac HmacAlgorithm.sha256
    ∷ Algorithm.hmac HmacAlgorithm.sha384
    ∷ Algorithm.hmac HmacAlgorithm.sha512
    ∷ Algorithm.ecdsa EcdsaAlgorithm.sha1
    ∷ Algorithm.ecdh EcdhAlgorithm.ecdh
    ∷ Algorithm.rsa (RsaAlgorithm.oaep OaepAlgorithm.sha1)
    ∷ Algorithm.rsa (RsaAlgorithm.oaep OaepAlgorithm.sha256)
    ∷ Algorithm.rsa (RsaAlgorithm.oaep OaepAlgorithm.sha384)
    ∷ Algorithm.rsa (RsaAlgorithm.oaep OaepAlgorithm.sha512)
    ∷ Algorithm.wrap WrapAlgorithm.aes128_ccm
    ∷ Algorithm.opaque OpaqueAlgorithm.opaque_data
    ∷ Algorithm.opaque OpaqueAlgorithm.x509_certificate
    ∷ Algorithm.mgf MgfAlgorithm.sha1
    ∷ Algorithm.mgf MgfAlgorithm.sha256
    ∷ Algorithm.mgf MgfAlgorithm.sha384
    ∷ Algorithm.mgf MgfAlgorithm.sha512
    ∷ Algorithm.template TemplateAlgorithm.ssh
    ∷ Algorithm.yubico_otp OtpAlgorithm.aes128
    ∷ Algorithm.authentication AuthenticationAlgorithm.yubico_aes
    ∷ Algorithm.yubico_otp OtpAlgorithm.aes192
    ∷ Algorithm.yubico_otp OtpAlgorithm.aes256
    ∷ Algorithm.wrap WrapAlgorithm.aes192_ccm
    ∷ Algorithm.wrap WrapAlgorithm.aes256_ccm
    ∷ Algorithm.ecdsa EcdsaAlgorithm.sha256
    ∷ Algorithm.ecdsa EcdsaAlgorithm.sha384
    ∷ Algorithm.ecdsa EcdsaAlgorithm.sha512
    ∷ Algorithm.asymmetric AsymmetricAlgorithm.ed25519
    ∷ Algorithm.asymmetric AsymmetricAlgorithm.ec_p224
    ∷ []

-- Versions 2.0.0, the serial number, a log of 62 entries that is full, and the algorithms.
unfoldable pub device_info_bytes : List ℕ
unfolding mock_algorithms Algorithms.to_u8
device_info_bytes =
    2
    ∷ 0
    ∷ 0
    ∷ (write (uint 4) mock_serial_number ++ (62 ∷ 62 ∷ map Algorithms.to_u8 mock_algorithms))

-- `StorageInfo`: the records and pages, all of them free, and the size of a page.
abbrev pub storage_shape : Shape
storage_shape = pair (uint 2) (pair (uint 2) (pair (uint 2) (pair (uint 2) (uint 2))))

-- `GetOptionCommand`
unfoldable pub tag_of : ℕ → Option AuditTag
unfolding field AuditTags.from_u8
tag_of byte = field (AuditTags.from_u8 byte) some

-- `SetOptionCommand`
abbrev pub set_option_shape : Shape
set_option_shape = pair (uint 1) (pair (uint 2) rest)

unfoldable pub set_option_of : Value set_option_shape → Option (AuditTag × (ℕ × List ℕ))
unfolding tag_of
set_option_of (byte, more) = elim (tag_of byte) [ none ↦ none | some tag ↦ some (tag, more) ]

-- `AuditCommand`
abbrev pub audit_command_shape : Shape
audit_command_shape = pair (uint 1) (uint 1)

unfoldable pub audit_command_of : Value audit_command_shape → Option (CommandCode × AuditOption)
unfolding field CommandCodes.from_u8 AuditOptions.from_u8
audit_command_of (code_byte, option_byte) =
    field (CommandCodes.from_u8 code_byte)
      (λ code. field (AuditOptions.from_u8 option_byte) (λ audit_option. some (code, audit_option)))

-- `AuditOption::from_u8(value[0]).unwrap()`
unfoldable pub first_option : {E : Type 0} → List ℕ → Result E AuditOption
unfolding AuditOptions.from_u8
first_option [] = panic
first_option (byte ∷ _) = unwrap (AuditOptions.from_u8 byte)

module _ (K : Keys) where
  unfoldable pub device_info : Hsm K ResponseMessage
  unfolding device_info_bytes
  device_info = success CommandCode.device_info device_info_bytes

  unfoldable pub echo : List ℕ → Hsm K ResponseMessage
  echo cmd_data = success CommandCode.echo cmd_data

  -- The counts of unlogged events and of entries, all 0, and no entries.
  unfoldable pub get_log_entries : Hsm K ResponseMessage
  get_log_entries =
      success CommandCode.get_log_entries
        (write (pair (uint 2) (pair (uint 2) (uint 1))) (0, (0, 0)))

  unfoldable pub get_storage_info : Hsm K ResponseMessage
  get_storage_info =
      success CommandCode.get_storage_info (write storage_shape (256, (256, (1024, (1024, 126)))))

  unfoldable pub get_pseudo_random : (ℕ → List ℕ) → List ℕ → Hsm K ResponseMessage
  get_pseudo_random random cmd_data = do
    bytes ← lift (parsed (uint 2) some cmd_data)
    success CommandCode.get_pseudo_random (random bytes)

  -- The value of an option.
  option_bytes : AuditTag → State.State K → List ℕ
  unfolding State.serialize AuditOptions.to_u8
  option_bytes AuditTag.command s = State.serialize s.command_audit_options
  option_bytes AuditTag.force s = AuditOptions.to_u8 s.force_audit ∷ []
  option_bytes AuditTag.fips s = AuditOptions.to_u8 s.fips ∷ []

  unfoldable pub get_option : List ℕ → Hsm K ResponseMessage
  unfolding option_bytes
  get_option cmd_data = do
    tag ← lift (parsed (uint 1) tag_of cmd_data)
    s ← get
    success CommandCode.get_option (option_bytes tag s)

  -- The change of one option.
  unfoldable pub set_option : AuditTag → ℕ → List ℕ → Hsm K Unit
  unfolding first_option State.put
  set_option AuditTag.force length value = do
    assert (length == 1)
    audit_option ← lift (first_option value)
    modify (λ s. record s { force_audit = audit_option })
  set_option AuditTag.command length value = do
    assert (length == 2)
    (command_type, audit_option) ← lift (parsed audit_command_shape audit_command_of value)
    modify (λ s. record s {
      command_audit_options = State.put command_type audit_option s.command_audit_options;
    })
  set_option AuditTag.fips length value = do
    assert (length == 1)
    audit_option ← lift (first_option value)
    modify (λ s. record s { fips = audit_option })

  unfoldable pub put_option : List ℕ → Hsm K ResponseMessage
  put_option cmd_data = do
    (tag, (length, value)) ← lift (parsed set_option_shape set_option_of cmd_data)
    set_option tag length value
    success CommandCode.set_option []
