-- ===== src/Capability.antt =====
-- Capabilities, one bit each, and their names (src/capability.rs). A set of capabilities is the
-- number of its bits.
mod Tests
pub mod Flags
pub mod Names
use yubihsm_rs.Base.{
  ℕ, ◌==◌, Bool, true, false, List, [], ◌∷◌, Option, none, some, Result, ok, err, if◌then◌else◌,
}
use yubihsm_rs.Base.Texts.{String, text_eq}
use yubihsm_rs.Capability.Flags
use yubihsm_rs.Object.Info.{Capability}

-- The arms of the match in `Display`, and of that in `FromStr`.
unfoldable pub displayed : List (Capability × String)
displayed =
    (Flags.derive_ecdh, "derive-ecdh")
    ∷ (Flags.decrypt_oaep, "decrypt-oaep")
    ∷ (Flags.decrypt_pkcs, "decrypt-pkcs")
    ∷ (Flags.generate_asymmetric_key, "generate-asymmetric-key")
    ∷ (Flags.sign_ecdsa, "sign-ecdsa")
    ∷ (Flags.sign_eddsa, "sign-eddsa")
    ∷ (Flags.sign_pkcs, "sign-pkcs")
    ∷ (Flags.sign_pss, "sign-pss")
    ∷ (Flags.sign_attestation_certificate, "sign-attestation-certificate")
    ∷ (Flags.get_log_entries, "get-log-entries")
    ∷ (Flags.delete_asymmetric_key, "delete-asymmetric-key")
    ∷ (Flags.delete_authentication_key, "delete-authentication-key")
    ∷ (Flags.delete_hmac_key, "delete-hmac-key")
    ∷ (Flags.delete_opaque, "delete-opaque")
    ∷ (Flags.delete_otp_aead_key, "delete-otp-aead-key")
    ∷ (Flags.delete_template, "delete-template")
    ∷ (Flags.delete_wrap_key, "delete-wrap-key")
    ∷ (Flags.exportable_under_wrap, "exportable-under-wrap")
    ∷ (Flags.export_wrapped, "export-wrapped")
    ∷ (Flags.generate_otp_aead_key, "generate-otp-aead-key")
    ∷ (Flags.generate_wrap_key, "generate-wrap-key")
    ∷ (Flags.get_opaque, "get-opaque")
    ∷ (Flags.get_option, "get-option")
    ∷ (Flags.get_pseudo_random, "get-pseudo-random")
    ∷ (Flags.get_template, "get-template")
    ∷ (Flags.generate_hmac_key, "generate-hmac-key")
    ∷ (Flags.sign_hmac, "sign-hmac")
    ∷ (Flags.verify_hmac, "verify-hmac")
    ∷ (Flags.import_wrapped, "import-wrapped")
    ∷ (Flags.create_otp_aead, "create-otp-aead")
    ∷ (Flags.randomize_otp_aead, "randomize-otp-aead")
    ∷ (Flags.rewrap_from_otp_aead_key, "rewrap-from-otp-aead-key")
    ∷ (Flags.rewrap_to_otp_aead_key, "rewrap-to-otp-aead-key")
    ∷ (Flags.decrypt_otp, "decrypt-otp")
    ∷ (Flags.put_asymmetric_key, "put-asymmetric-key")
    ∷ (Flags.put_authentication_key, "put-authentication-key")
    ∷ (Flags.put_hmac_key, "put-hmac-key")
    ∷ (Flags.put_opaque, "put-opaque")
    ∷ (Flags.put_option, "set-option")
    ∷ (Flags.put_otp_aead_key, "put-otp-aead-key")
    ∷ (Flags.put_template, "put-template")
    ∷ (Flags.put_wrap_key, "put-wrap-key")
    ∷ (Flags.reset_device, "reset-device")
    ∷ (Flags.sign_ssh_certificate, "sign-ssh-certificate")
    ∷ (Flags.unwrap_data, "unwrap-data")
    ∷ (Flags.wrap_data, "wrap-data")
    ∷ (Flags.change_authentication_key, "change-authentication-key")
    ∷ []

unfoldable pub parsed : List (String × Capability)
parsed =
    ("derive-ecdh", Flags.derive_ecdh)
    ∷ ("decrypt-oaep", Flags.decrypt_oaep)
    ∷ ("decrypt-pkcs", Flags.decrypt_pkcs)
    ∷ ("generate-asymmetric-key", Flags.generate_asymmetric_key)
    ∷ ("sign-ecdsa", Flags.sign_ecdsa)
    ∷ ("sign-eddsa", Flags.sign_eddsa)
    ∷ ("sign-pkcs", Flags.sign_pkcs)
    ∷ ("sign-pss", Flags.sign_pss)
    ∷ ("sign-attestation-certificate", Flags.sign_attestation_certificate)
    ∷ ("get-log-entries", Flags.get_log_entries)
    ∷ ("delete-asymmetric-key", Flags.delete_asymmetric_key)
    ∷ ("delete-authentication-key", Flags.delete_authentication_key)
    ∷ ("delete-hmac-key", Flags.delete_hmac_key)
    ∷ ("delete-opaque", Flags.delete_opaque)
    ∷ ("delete-otp-aead-key", Flags.delete_otp_aead_key)
    ∷ ("delete-template", Flags.delete_template)
    ∷ ("delete-wrap-key", Flags.delete_wrap_key)
    ∷ ("exportable-under-wrap", Flags.exportable_under_wrap)
    ∷ ("export-wrapped", Flags.export_wrapped)
    ∷ ("generate-otp-aead-key", Flags.generate_otp_aead_key)
    ∷ ("generate-wrap-key", Flags.generate_wrap_key)
    ∷ ("get-opaque", Flags.get_opaque)
    ∷ ("get-option", Flags.get_option)
    ∷ ("get-pseudo-random", Flags.get_pseudo_random)
    ∷ ("get-template", Flags.get_template)
    ∷ ("generate-hmac-key", Flags.generate_hmac_key)
    ∷ ("sign-hmac", Flags.sign_hmac)
    ∷ ("verify-hmac", Flags.verify_hmac)
    ∷ ("import-wrapped", Flags.import_wrapped)
    ∷ ("create-otp-aead", Flags.create_otp_aead)
    ∷ ("randomize-otp-aead", Flags.randomize_otp_aead)
    ∷ ("rewrap-from-otp-aead-key", Flags.rewrap_from_otp_aead_key)
    ∷ ("rewrap-to-otp-aead-key", Flags.rewrap_to_otp_aead_key)
    ∷ ("decrypt-otp", Flags.decrypt_otp)
    ∷ ("put-asymmetric-key", Flags.put_asymmetric_key)
    ∷ ("put-authentication-key", Flags.put_authentication_key)
    ∷ ("put-hmac-key", Flags.put_hmac_key)
    ∷ ("put-opaque", Flags.put_opaque)
    ∷ ("set-option", Flags.put_option)
    ∷ ("put-otp-aead-key", Flags.put_otp_aead_key)
    ∷ ("put-template", Flags.put_template)
    ∷ ("put-wrap-key", Flags.put_wrap_key)
    ∷ ("reset-device", Flags.reset_device)
    ∷ ("sign-ssh-certificate", Flags.sign_ssh_certificate)
    ∷ ("unwrap-data", Flags.unwrap_data)
    ∷ ("wrap-data", Flags.wrap_data)
    ∷ ("change-authentication-key", Flags.change_authentication_key)
    ∷ []

-- The first arm that matches.
unfoldable pub name_of : Capability → List (Capability × String) → Option String
name_of capability [] = none
name_of capability ((c, name) ∷ arms) =
    if c == capability then some name else name_of capability arms

unfoldable pub flag_of : String → List (String × Capability) → Option Capability
flag_of s [] = none
flag_of s ((name, c) ∷ arms) = if text_eq name s then some c else flag_of s arms

-- `fmt`: a set that is none of the flags with a name is an error.
unfoldable pub fmt : Capability → Option String
fmt capability = name_of capability displayed

-- `from_str`
unfoldable pub from_str : String → Option Capability
from_str s = flag_of s parsed
