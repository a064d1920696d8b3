-- ===== src/Capability/Tests.antt =====
-- Tests of capabilities.
use yubihsm_rs.Base.{◌≡◌, ◌↔◌, refl, some}
use yubihsm_rs.Capability.Flags.{sign_hmac}
use yubihsm_rs.Capability.{fmt, from_str, name_of, displayed}
use yubihsm_rs.Capability.Names.{capability_from_str_iff}

fmt-sign_hmac : fmt sign_hmac ≡ some "sign-hmac"
unfolding fmt name_of displayed
fmt-sign_hmac = refl

capability_from_str_iff_example :
    (from_str "sign-hmac" ≡ some sign_hmac) ↔ (fmt sign_hmac ≡ some "sign-hmac")
capability_from_str_iff_example = capability_from_str_iff "sign-hmac" sign_hmac
