-- ===== src/MockHsm/Preserved/Handled.antt =====
-- The handlers of `session_message` keep properties of the simulated device
-- (src/mockhsm/command.rs).
use yubihsm_rs.Base.{ℕ, List}
use yubihsm_rs.Base.Programs.{Keeps, lift-Keeps}
use yubihsm_rs.Command.Code.{CommandCode}
use yubihsm_rs.Session.SecureChannel.Crypto.{Crypto}
use yubihsm_rs.MockHsm.Commands.Device as Device
use yubihsm_rs.MockHsm.Commands.Signing.{Signers}
use yubihsm_rs.MockHsm.Commands.Storage as Storage
use yubihsm_rs.MockHsm.Connection as Connection
use yubihsm_rs.MockHsm.Keys.{Keys}
use yubihsm_rs.MockHsm.State.{State}
use yubihsm_rs.MockHsm.Preserved.{
  Rules, success-Keeps, delete_object-Keeps, gen_key-Keeps, gen_wrap_key-Keeps, put_object-Keeps,
  put_authentication_key-Keeps, put_wrap_key-Keeps, get_object_info-Keeps, get_opaque-Keeps,
  get_public_key-Keeps, export_wrapped-Keeps, import_wrapped-Keeps, list_objects-Keeps,
  get_option-Keeps, put_option-Keeps, get_pseudo_random-Keeps,
}
use yubihsm_rs.MockHsm.Preserved.Signed.{
  sign_ecdsa-Keeps, sign_eddsa-Keeps, sign_hmac-Keeps, sign_pss-Keeps, sign_pkcs1v15-Keeps,
  verify_hmac-Keeps,
}

module _ {K : Keys} {P : State K → Type 0} (R : Rules K P) (S : Signers K) (c : Crypto) where
  pub handled-Keeps :
      (random : ℕ → List ℕ) (code : CommandCode) (bytes : List ℕ)
      → Keeps P (Connection.handled K S c random code bytes)
  unfolding Connection.handled Storage.gen_asymmetric_key Storage.gen_hmac_key
      Storage.put_asymmetric_key Storage.put_hmac_key Storage.put_opaque Device.device_info
      Device.echo Device.get_log_entries Device.get_storage_info
  handled-Keeps random CommandCode.blink_device bytes = success-Keeps _ _
  handled-Keeps random CommandCode.delete_object bytes = delete_object-Keeps R bytes
  handled-Keeps random CommandCode.device_info bytes = success-Keeps _ _
  handled-Keeps random CommandCode.echo bytes = success-Keeps _ _
  handled-Keeps random CommandCode.export_wrapped bytes = export_wrapped-Keeps R random bytes
  handled-Keeps random CommandCode.generate_asymmetric_key bytes = gen_key-Keeps R random _ _ bytes
  handled-Keeps random CommandCode.generate_hmac_key bytes = gen_key-Keeps R random _ _ bytes
  handled-Keeps random CommandCode.generate_wrap_key bytes = gen_wrap_key-Keeps R random bytes
  handled-Keeps random CommandCode.get_log_entries bytes = success-Keeps _ _
  handled-Keeps random CommandCode.get_object_info bytes = get_object_info-Keeps bytes
  handled-Keeps random CommandCode.get_opaque_object bytes = get_opaque-Keeps bytes
  handled-Keeps random CommandCode.get_option bytes = get_option-Keeps bytes
  handled-Keeps random CommandCode.get_pseudo_random bytes = get_pseudo_random-Keeps random bytes
  handled-Keeps random CommandCode.get_public_key bytes = get_public_key-Keeps bytes
  handled-Keeps random CommandCode.sign_hmac bytes = sign_hmac-Keeps S bytes
  handled-Keeps random CommandCode.import_wrapped bytes = import_wrapped-Keeps R bytes
  handled-Keeps random CommandCode.list_objects bytes = list_objects-Keeps bytes
  handled-Keeps random CommandCode.put_asymmetric_key bytes = put_object-Keeps R _ _ bytes
  handled-Keeps random CommandCode.put_authentication_key bytes =
      put_authentication_key-Keeps R bytes
  handled-Keeps random CommandCode.put_hmac_key bytes = put_object-Keeps R _ _ bytes
  handled-Keeps random CommandCode.put_opaque_object bytes = put_object-Keeps R _ _ bytes
  handled-Keeps random CommandCode.set_option bytes = put_option-Keeps R bytes
  handled-Keeps random CommandCode.put_wrap_key bytes = put_wrap_key-Keeps R bytes
  handled-Keeps random CommandCode.set_log_index bytes = success-Keeps _ _
  handled-Keeps random CommandCode.sign_ecdsa bytes = sign_ecdsa-Keeps S random bytes
  handled-Keeps random CommandCode.sign_eddsa bytes = sign_eddsa-Keeps S bytes
  handled-Keeps random CommandCode.get_storage_info bytes = success-Keeps _ _
  handled-Keeps random CommandCode.verify_hmac bytes = verify_hmac-Keeps S bytes
  handled-Keeps random CommandCode.sign_pss bytes = sign_pss-Keeps S random bytes
  handled-Keeps random CommandCode.sign_pkcs1 bytes = sign_pkcs1v15-Keeps S bytes
  handled-Keeps random _ bytes = lift-Keeps _
