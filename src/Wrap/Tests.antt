-- ===== src/Wrap/Tests.antt =====
-- Wrapped messages and objects on concrete bytes (src/wrap).
use yubihsm_rs.Base.{◌≡◌, ◌↔◌, refl, arith, [], ◌∷◌, replicate, length, some, ok}
use yubihsm_rs.Algorithm.Any.{Algorithm}
use yubihsm_rs.Algorithm.Hmac.{HmacAlgorithm}
use yubihsm_rs.Algorithm.Wrap.{WrapAlgorithm}
use yubihsm_rs.Object.Origins.{Origin}
use yubihsm_rs.Object.Types.{ObjectType}
use yubihsm_rs.Wrap.Message.{
  Message, WrappedObject, nonce_size, from_vec, into_vec, parse, serialize,
  wrap_message-from_vec_iff, wrapped_object_parse-serialize,
}

abbrev message : Message
message = record { nonce = replicate 13 7; ciphertext = 1 ∷ 2 ∷ [] }

wrap_message-from_vec_iff_example :
    (from_vec (into_vec message) ≡ ok message)
    ↔ ((into_vec message ≡ into_vec message) × (length message.nonce ≡ nonce_size))
wrap_message-from_vec_iff_example = wrap_message-from_vec_iff (into_vec message) message

abbrev wrapped : WrappedObject
wrapped = record {
  alg_id = Algorithm.wrap WrapAlgorithm.aes128_ccm;
  object_info = record {
    capabilities = 0x1_0000;
    object_id = 9;
    length = 3;
    domains = 1;
    object_type = ObjectType.hmac_key;
    algorithm = Algorithm.hmac HmacAlgorithm.sha256;
    sequence = 0;
    origin = Origin.imported;
    label = replicate 40 0;
  };
  payload_bytes = 1 ∷ 2 ∷ 3 ∷ [];
}

wrapped_object_parse-serialize_example : parse (serialize wrapped) ≡ some wrapped
wrapped_object_parse-serialize_example = wrapped_object_parse-serialize wrapped (record {
  capabilities_lt = omega arith;
  object_id_lt = omega arith;
  length_lt = omega arith;
  domains_lt = omega arith;
  sequence_lt = omega arith;
  label_full = refl;
})
