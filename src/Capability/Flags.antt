-- ===== src/Capability/Flags.antt =====
-- The constants of `Capability` (src/capability.rs).
use yubihsm_rs.Base.{List, [], ◌∷◌}
use yubihsm_rs.Object.Info.{Capability}

abbrev pub derive_ecdh : Capability
derive_ecdh = 0x800

abbrev pub decrypt_oaep : Capability
decrypt_oaep = 0x400

abbrev pub decrypt_pkcs : Capability
decrypt_pkcs = 0x200

abbrev pub generate_asymmetric_key : Capability
generate_asymmetric_key = 0x10

abbrev pub sign_ecdsa : Capability
sign_ecdsa = 0x80

abbrev pub sign_eddsa : Capability
sign_eddsa = 0x100

abbrev pub sign_pkcs : Capability
sign_pkcs = 0x20

abbrev pub sign_pss : Capability
sign_pss = 0x40

abbrev pub sign_attestation_certificate : Capability
sign_attestation_certificate = 0x4_0000_0000

abbrev pub get_log_entries : Capability
get_log_entries = 0x100_0000

abbrev pub delete_asymmetric_key : Capability
delete_asymmetric_key = 0x200_0000_0000

abbrev pub delete_authentication_key : Capability
delete_authentication_key = 0x100_0000_0000

abbrev pub delete_hmac_key : Capability
delete_hmac_key = 0x800_0000_0000

abbrev pub delete_opaque : Capability
delete_opaque = 0x80_0000_0000

abbrev pub delete_otp_aead_key : Capability
delete_otp_aead_key = 0x2000_0000_0000

abbrev pub delete_template : Capability
delete_template = 0x1000_0000_0000

abbrev pub delete_wrap_key : Capability
delete_wrap_key = 0x400_0000_0000

abbrev pub exportable_under_wrap : Capability
exportable_under_wrap = 0x1_0000

abbrev pub export_wrapped : Capability
export_wrapped = 0x1000

abbrev pub generate_otp_aead_key : Capability
generate_otp_aead_key = 0x10_0000_0000

abbrev pub generate_wrap_key : Capability
generate_wrap_key = 0x8000

abbrev pub get_opaque : Capability
get_opaque = 0x1

abbrev pub get_option : Capability
get_option = 0x4_0000

abbrev pub get_pseudo_random : Capability
get_pseudo_random = 0x8_0000

abbrev pub get_template : Capability
get_template = 0x400_0000

abbrev pub generate_hmac_key : Capability
generate_hmac_key = 0x20_0000

abbrev pub sign_hmac : Capability
sign_hmac = 0x40_0000

abbrev pub verify_hmac : Capability
verify_hmac = 0x80_0000

abbrev pub import_wrapped : Capability
import_wrapped = 0x2000

abbrev pub create_otp_aead : Capability
create_otp_aead = 0x4000_0000

abbrev pub randomize_otp_aead : Capability
randomize_otp_aead = 0x8000_0000

abbrev pub rewrap_from_otp_aead_key : Capability
rewrap_from_otp_aead_key = 0x1_0000_0000

abbrev pub rewrap_to_otp_aead_key : Capability
rewrap_to_otp_aead_key = 0x2_0000_0000

abbrev pub decrypt_otp : Capability
decrypt_otp = 0x2000_0000

abbrev pub put_asymmetric_key : Capability
put_asymmetric_key = 0x8

abbrev pub put_authentication_key : Capability
put_authentication_key = 0x4

abbrev pub put_hmac_key : Capability
put_hmac_key = 0x10_0000

abbrev pub put_opaque : Capability
put_opaque = 0x2

abbrev pub put_option : Capability
put_option = 0x2_0000

abbrev pub put_otp_aead_key : Capability
put_otp_aead_key = 0x8_0000_0000

abbrev pub put_template : Capability
put_template = 0x800_0000

abbrev pub put_wrap_key : Capability
put_wrap_key = 0x4000

abbrev pub reset_device : Capability
reset_device = 0x1000_0000

abbrev pub sign_ssh_certificate : Capability
sign_ssh_certificate = 0x200_0000

abbrev pub unwrap_data : Capability
unwrap_data = 0x40_0000_0000

abbrev pub wrap_data : Capability
wrap_data = 0x20_0000_0000

abbrev pub change_authentication_key : Capability
change_authentication_key = 0x4000_0000_0000

-- The constants of the type, those without a meaning yet at the end.
unfoldable pub flags : List Capability
flags =
    derive_ecdh ∷ decrypt_oaep ∷ decrypt_pkcs ∷ generate_asymmetric_key ∷ sign_ecdsa ∷ sign_eddsa
    ∷ sign_pkcs ∷ sign_pss ∷ sign_attestation_certificate ∷ get_log_entries ∷ delete_asymmetric_key
    ∷ delete_authentication_key ∷ delete_hmac_key ∷ delete_opaque ∷ delete_otp_aead_key
    ∷ delete_template ∷ delete_wrap_key ∷ exportable_under_wrap ∷ export_wrapped
    ∷ generate_otp_aead_key ∷ generate_wrap_key ∷ get_opaque ∷ get_option ∷ get_pseudo_random
    ∷ get_template ∷ generate_hmac_key ∷ sign_hmac ∷ verify_hmac ∷ import_wrapped ∷ create_otp_aead
    ∷ randomize_otp_aead ∷ rewrap_from_otp_aead_key ∷ rewrap_to_otp_aead_key ∷ decrypt_otp
    ∷ put_asymmetric_key ∷ put_authentication_key ∷ put_hmac_key ∷ put_opaque ∷ put_option
    ∷ put_otp_aead_key ∷ put_template ∷ put_wrap_key ∷ reset_device ∷ sign_ssh_certificate
    ∷ unwrap_data ∷ wrap_data ∷ change_authentication_key ∷ 0x8000_0000_0000 ∷ 0x1_0000_0000_0000
    ∷ 0x2_0000_0000_0000 ∷ 0x4_0000_0000_0000 ∷ 0x8_0000_0000_0000 ∷ 0x10_0000_0000_0000
    ∷ 0x20_0000_0000_0000 ∷ 0x40_0000_0000_0000 ∷ 0x80_0000_0000_0000 ∷ 0x100_0000_0000_0000
    ∷ 0x200_0000_0000_0000 ∷ 0x400_0000_0000_0000 ∷ 0x800_0000_0000_0000 ∷ 0x1000_0000_0000_0000
    ∷ 0x2000_0000_0000_0000 ∷ 0x4000_0000_0000_0000 ∷ 0x8000_0000_0000_0000 ∷ []
