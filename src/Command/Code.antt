-- ===== src/Command/Code.antt =====
-- The command codes (src/command/code.rs): `command::Code` with `from_u8` and `to_u8`.
use yubihsm_rs.Base.{
  ℕ, ◌<◌, ◌≡◌, refl, ap, ◌∙◌, sym, ◌↔◌, Bool, true, Result, ok, err, panic, ◌≢◌, arith,
  if◌then◌else◌, ◌==◌, ==_iff,
}
use yubihsm_rs.Base.Tables.{holds_below, holds_below_at}
use yubihsm_rs.Command.Error.{CommandErrorKind, code_invalid}

pub data CommandCode : Type 0 where
  unknown echo create_session authenticate_session session_message device_info bsl : CommandCode
  reset_device command9 close_session get_storage_info put_opaque_object : CommandCode
  get_opaque_object put_authentication_key put_asymmetric_key : CommandCode
  generate_asymmetric_key sign_pkcs1 list_objects decrypt_pkcs1 export_wrapped : CommandCode
  import_wrapped put_wrap_key get_log_entries get_object_info set_option get_option : CommandCode
  get_pseudo_random put_hmac_key sign_hmac get_public_key sign_pss sign_ecdsa : CommandCode
  derive_ecdh delete_object decrypt_oaep generate_hmac_key generate_wrap_key : CommandCode
  verify_hmac sign_ssh_certificate put_template get_template decrypt_otp : CommandCode
  create_otp_aead randomize_otp_aead rewrap_otp_aead sign_attestation_certificate : CommandCode
  put_otp_aead generate_otp_aead set_log_index wrap_data unwrap_data sign_eddsa : CommandCode
  blink_device change_authentication_key error hsm_initialization : CommandCode

unfoldable pub to_u8 : CommandCode → ℕ
to_u8 unknown = 0x00
to_u8 echo = 0x01
to_u8 create_session = 0x03
to_u8 authenticate_session = 0x04
to_u8 session_message = 0x05
to_u8 device_info = 0x06
to_u8 bsl = 0x07
to_u8 reset_device = 0x08
to_u8 command9 = 0x09
to_u8 close_session = 0x40
to_u8 get_storage_info = 0x41
to_u8 put_opaque_object = 0x42
to_u8 get_opaque_object = 0x43
to_u8 put_authentication_key = 0x44
to_u8 put_asymmetric_key = 0x45
to_u8 generate_asymmetric_key = 0x46
to_u8 sign_pkcs1 = 0x47
to_u8 list_objects = 0x48
to_u8 decrypt_pkcs1 = 0x49
to_u8 export_wrapped = 0x4a
to_u8 import_wrapped = 0x4b
to_u8 put_wrap_key = 0x4c
to_u8 get_log_entries = 0x4d
to_u8 get_object_info = 0x4e
to_u8 set_option = 0x4f
to_u8 get_option = 0x50
to_u8 get_pseudo_random = 0x51
to_u8 put_hmac_key = 0x52
to_u8 sign_hmac = 0x53
to_u8 get_public_key = 0x54
to_u8 sign_pss = 0x55
to_u8 sign_ecdsa = 0x56
to_u8 derive_ecdh = 0x57
to_u8 delete_object = 0x58
to_u8 decrypt_oaep = 0x59
to_u8 generate_hmac_key = 0x5a
to_u8 generate_wrap_key = 0x5b
to_u8 verify_hmac = 0x5c
to_u8 sign_ssh_certificate = 0x5d
to_u8 put_template = 0x5e
to_u8 get_template = 0x5f
to_u8 decrypt_otp = 0x60
to_u8 create_otp_aead = 0x61
to_u8 randomize_otp_aead = 0x62
to_u8 rewrap_otp_aead = 0x63
to_u8 sign_attestation_certificate = 0x64
to_u8 put_otp_aead = 0x65
to_u8 generate_otp_aead = 0x66
to_u8 set_log_index = 0x67
to_u8 wrap_data = 0x68
to_u8 unwrap_data = 0x69
to_u8 sign_eddsa = 0x6a
to_u8 blink_device = 0x6b
to_u8 change_authentication_key = 0x6c
to_u8 error = 0x7f
to_u8 hsm_initialization = 0xff

unfoldable pub from_u8 : ℕ → Result CommandErrorKind CommandCode
from_u8 byte =
    if byte == 0x00
    then ok unknown
    else if byte == 0x01
    then ok echo
    else if byte == 0x03
    then ok create_session
    else if byte == 0x04
    then ok authenticate_session
    else if byte == 0x05
    then ok session_message
    else if byte == 0x06
    then ok device_info
    else if byte == 0x07
    then ok bsl
    else if byte == 0x08
    then ok reset_device
    else if byte == 0x09
    then ok command9
    else if byte == 0x40
    then ok close_session
    else if byte == 0x41
    then ok get_storage_info
    else if byte == 0x42
    then ok put_opaque_object
    else if byte == 0x43
    then ok get_opaque_object
    else if byte == 0x44
    then ok put_authentication_key
    else if byte == 0x45
    then ok put_asymmetric_key
    else if byte == 0x46
    then ok generate_asymmetric_key
    else if byte == 0x47
    then ok sign_pkcs1
    else if byte == 0x48
    then ok list_objects
    else if byte == 0x49
    then ok decrypt_pkcs1
    else if byte == 0x4a
    then ok export_wrapped
    else if byte == 0x4b
    then ok import_wrapped
    else if byte == 0x4c
    then ok put_wrap_key
    else if byte == 0x4d
    then ok get_log_entries
    else if byte == 0x4e
    then ok get_object_info
    else if byte == 0x4f
    then ok set_option
    else if byte == 0x50
    then ok get_option
    else if byte == 0x51
    then ok get_pseudo_random
    else if byte == 0x52
    then ok put_hmac_key
    else if byte == 0x53
    then ok sign_hmac
    else if byte == 0x54
    then ok get_public_key
    else if byte == 0x55
    then ok sign_pss
    else if byte == 0x56
    then ok sign_ecdsa
    else if byte == 0x57
    then ok derive_ecdh
    else if byte == 0x58
    then ok delete_object
    else if byte == 0x59
    then ok decrypt_oaep
    else if byte == 0x5a
    then ok generate_hmac_key
    else if byte == 0x5b
    then ok generate_wrap_key
    else if byte == 0x5c
    then ok verify_hmac
    else if byte == 0x5d
    then ok sign_ssh_certificate
    else if byte == 0x5e
    then ok put_template
    else if byte == 0x5f
    then ok get_template
    else if byte == 0x60
    then ok decrypt_otp
    else if byte == 0x61
    then ok create_otp_aead
    else if byte == 0x62
    then ok randomize_otp_aead
    else if byte == 0x63
    then ok rewrap_otp_aead
    else if byte == 0x64
    then ok sign_attestation_certificate
    else if byte == 0x65
    then ok put_otp_aead
    else if byte == 0x66
    then ok generate_otp_aead
    else if byte == 0x67
    then ok set_log_index
    else if byte == 0x68
    then ok wrap_data
    else if byte == 0x69
    then ok unwrap_data
    else if byte == 0x6a
    then ok sign_eddsa
    else if byte == 0x6b
    then ok blink_device
    else if byte == 0x6c
    then ok change_authentication_key
    else if byte == 0x7f
    then ok error
    else if byte == 0xff
    then ok hsm_initialization
    else err code_invalid

-- Whether `from_u8` reads a byte as a value that `to_u8` writes as that byte, or refuses it.
reads_back : ℕ → Bool
unfolding from_u8 to_u8
reads_back byte = elim (from_u8 byte) [ ok value ↦ to_u8 value == byte | _ ↦ true ]

pub from_u8-to_u8 : (value : CommandCode) → from_u8 (to_u8 value) ≡ ok value
unfolding from_u8 to_u8
from_u8-to_u8 unknown = refl
from_u8-to_u8 _ = refl

pub to_u8-from_u8 :
    (byte : ℕ) (value : CommandCode) → byte < 256 → from_u8 byte ≡ ok value → to_u8 value ≡ byte
unfolding reads_back
to_u8-from_u8 byte value h e = (==_iff _ _).0 (unfold reads_back in rw (e, reads_back) at seen)
  where
    seen : reads_back byte ≡ true
    seen = holds_below_at 256 reads_back byte (unfold holds_below in refl) h

-- A byte is read as a command code exactly when it is the byte that is written for the code.
pub command_code_from_u8_iff :
    (byte : ℕ) (value : CommandCode) → byte < 256 → (from_u8 byte ≡ ok value) ↔ (to_u8 value ≡ byte)
command_code_from_u8_iff byte value h =
    (to_u8-from_u8 byte value h, λ e. sym (ap from_u8 e) ∙ from_u8-to_u8 value)

pub from_u8-ne-panic : (byte : ℕ) → from_u8 byte ≢ panic
unfolding from_u8
from_u8-ne-panic byte = ground arith
