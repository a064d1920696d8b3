-- ===== src/MockHsm/Tests.antt =====
-- The simulated device on concrete frames and objects (src/mockhsm), with keys and a cipher that
-- are not secure.
mod Sessions
mod Listings
mod Reconnection
use yubihsm_rs.Base.{
  ℕ, ◌+◌, ◌*◌, arith, ◌≡◌, refl, sym, Option, none, some, List, [], ◌∷◌, ◌++◌, replicate, length,
  take, drop, Result, ok, err, panic, Bool, true, false, if◌then◌else◌, ◌==◌,
}
use yubihsm_rs.Algorithm.Any.{Algorithm}
use yubihsm_rs.Algorithm.Hmac.{HmacAlgorithm}
use yubihsm_rs.Algorithm.Wrap.{WrapAlgorithm}
use yubihsm_rs.Algorithm.Any as Algorithms
use yubihsm_rs.Base.Programs.{◌>>=◌, get, modify, lift, assert, pure}
use yubihsm_rs.Object.Info.{Params, Info, rank}
use yubihsm_rs.Wrap.Info.{from_object}
use yubihsm_rs.Wrap.Message as Wrapped
use yubihsm_rs.MockHsm.Error.{HsmErrorKind}
use yubihsm_rs.MockHsm.Lengths.{recorded_length}
use yubihsm_rs.MockHsm.Made.{IsMadeOf}
use yubihsm_rs.MockHsm.Lookups.{put-get_object, remove_object-get_object}
use yubihsm_rs.MockHsm.Wrapping.{returned, wrap_obj-unwrap_obj}
use yubihsm_rs.Object.Origins.{Origin}
use yubihsm_rs.Object.Types.{ObjectType}
use yubihsm_rs.MockHsm.Keys.{Keys, CcmLaws}
use yubihsm_rs.MockHsm.Maps.{Map, insert, lookup}
use yubihsm_rs.MockHsm.Objects as Objects
use yubihsm_rs.MockHsm.Objects.{Object, Objects}
use yubihsm_rs.MockHsm.Payload as Payload
use yubihsm_rs.MockHsm.Payload.{Payload}

-- Keys are their bytes; encryption appends nothing and hides nothing.
abbrev pub keys : Keys
keys = record {
  P256 = List ℕ;
  K256 = List ℕ;
  Ed25519 = List ℕ;
  Rsa = List ℕ;
  BigUint = List ℕ;
  Ccm = List ℕ;
  p256_from_slice = λ bytes. some bytes;
  p256_to_bytes = λ k. k;
  p256_encoded_point = λ k. 4 ∷ k;
  k256_from_slice = λ bytes. some bytes;
  k256_to_bytes = λ k. k;
  k256_encoded_point = λ k. 4 ∷ k;
  ed25519_try_from = λ bytes. some bytes;
  ed25519_verifying_key = λ k. k;
  from_bytes_be = λ bytes. bytes;
  from_u64 = λ n. some (n ∷ []);
  to_bytes_be = λ n. n;
  rsa_from_p_q = λ p q e. some (p ++ q);
  rsa_size = λ k. length k;
  rsa_n = λ k. k;
  rsa_primes = λ k. k ∷ k ∷ [];
  rsa_dp = λ k. none;
  rsa_dq = λ k. none;
  rsa_qinv = λ k. none;
  p256_random = λ random. random 32;
  k256_random = λ random. random 32;
  ed25519_generate = λ random. random 32;
  rsa_new = λ random n. some (random n);
  ccm_new_from_slice = λ size bytes. if length bytes == size then some bytes else none;
  ccm_encrypt_in_place = λ key nonce text buffer. some buffer;
  ccm_decrypt_in_place = λ key nonce text buffer. some buffer;
  contains = λ all some_of. true;
  default_authentication_key = replicate 32 1;
}

abbrev keys-laws : CcmLaws keys
keys-laws = record { ccm_decrypt-ccm_encrypt = λ key nonce text buffer sealed e. sym e }

abbrev wrap_params : Params
wrap_params = record {
  id = 7;
  label = replicate 40 0;
  domains = 1;
  capabilities = 0;
  algorithm = Algorithm.wrap WrapAlgorithm.aes128_ccm;
}

abbrev pub hmac_params : Params
hmac_params = record {
  id = 9;
  label = replicate 40 0;
  domains = 1;
  capabilities = 0x1_0000;
  algorithm = Algorithm.hmac HmacAlgorithm.sha256;
}

abbrev hmac_bytes : List ℕ
hmac_bytes = 1 ∷ 2 ∷ 3 ∷ []

-- An object that was put, with a payload.
abbrev pub put_object : ObjectType → Params → Payload keys → ℕ → Object keys
put_object ty p payload length = record {
  object_info = Objects.described ty p 0 Origin.imported length;
  payload = payload;
}

abbrev hmac_object : Object keys
hmac_object =
    put_object ObjectType.hmac_key hmac_params (Payload.hmac_key HmacAlgorithm.sha256 hmac_bytes) 3

abbrev wrap_object : Object keys
wrap_object =
    put_object ObjectType.wrap_key wrap_params
      (Payload.wrap_key WrapAlgorithm.aes128_ccm (replicate 16 2)) 16

abbrev pub wrap_only : Objects keys
wrap_only = (7 * 256 + 4, wrap_object) ∷ []

abbrev pub both_objects : Objects keys
both_objects = (7 * 256 + 4, wrap_object) ∷ (9 * 256 + 5, hmac_object) ∷ []

put_hmac :
    Objects.put keys ObjectType.hmac_key hmac_params 0 hmac_bytes wrap_only ≡ (ok tt, both_objects)
unfolding Objects.put Objects.insert_new Objects.is_none Payload.new Payload.len ◌>>=◌ get modify
    lift assert lookup insert rank
put_hmac = refl

put-get_object_example :
    (payload : Payload keys) × (Payload.new keys {E = HsmErrorKind}
        (Algorithm.hmac HmacAlgorithm.sha256)
        hmac_bytes
      ≡ ok payload)
    × IsMadeOf keys (Algorithm.hmac HmacAlgorithm.sha256) hmac_bytes payload
    × (Objects.get_object keys 9 ObjectType.hmac_key wrap_only ≡ none)
    × (Objects.get_object keys 9 ObjectType.hmac_key both_objects
        ≡ some (record {
          object_info = record {
            capabilities = 0x1_0000;
            object_id = 9;
            length = recorded_length keys payload hmac_bytes;
            domains = 1;
            object_type = ObjectType.hmac_key;
            algorithm = Algorithm.hmac HmacAlgorithm.sha256;
            sequence = 1;
            origin = Origin.imported;
            label = replicate 40 0;
            delegated_capabilities = 0;
          };
          payload = payload;
        }))
    × ((id : ℕ) (other : ObjectType)
        → ((id ≡ 9) × (other ≡ ObjectType.hmac_key) → ⊥)
        → Objects.get_object keys id other both_objects
          ≡ Objects.get_object keys id other wrap_only)
put-get_object_example =
    put-get_object keys ObjectType.hmac_key hmac_params 0 hmac_bytes wrap_only both_objects put_hmac

remove_object-get_object_example :
    (t : Objects keys) × (Objects.remove_object keys 9 ObjectType.hmac_key both_objects
      ≡ (ok (Objects.get_object keys 9 ObjectType.hmac_key both_objects), t))
    × (Objects.get_object keys 9 ObjectType.hmac_key t ≡ none)
    × ((id : ℕ) (other : ObjectType)
        → ((id ≡ 9) × (other ≡ ObjectType.hmac_key) → ⊥)
        → Objects.get_object keys id other t ≡ Objects.get_object keys id other both_objects)
remove_object-get_object_example = remove_object-get_object keys 9 ObjectType.hmac_key both_objects

abbrev wrap_cipher : Objects.AesCcmKey keys
wrap_cipher = Objects.aes128 (replicate 16 2)

get_wrap_key_both : Objects.get_wrap_key keys 7 both_objects ≡ (ok wrap_cipher, both_objects)
unfolding Objects.get_wrap_key Objects.get_object Objects.found Objects.new_ccm Payload.algorithm
    Payload.to_bytes ◌>>=◌ get lift pure lookup rank Algorithms.as_wrap
get_wrap_key_both = refl

get_wrap_key_only : Objects.get_wrap_key keys 7 wrap_only ≡ (ok wrap_cipher, wrap_only)
unfolding Objects.get_wrap_key Objects.get_object Objects.found Objects.new_ccm Payload.algorithm
    Payload.to_bytes ◌>>=◌ get lift pure lookup rank Algorithms.as_wrap
get_wrap_key_only = refl

abbrev sealed_hmac : List ℕ
sealed_hmac = Wrapped.serialize (
    Objects.wrapped_copy (Objects.key_algorithm keys wrap_cipher) hmac_object.object_info
      hmac_bytes)

wrap_obj-unwrap_obj_example :
    (Objects.wrap_obj keys 7 9 ObjectType.hmac_key (replicate 13 0) both_objects
      ≡ (ok sealed_hmac, both_objects))
    × (Objects.unwrap_obj keys 7 (replicate 13 0) sealed_hmac wrap_only ≡ (
      ok (record { object_id = 9; object_type = ObjectType.hmac_key }),
      insert
          (rank 9 ObjectType.hmac_key)
          (returned keys hmac_object (Payload.hmac_key HmacAlgorithm.sha256 hmac_bytes))
          wrap_only,
    ))
unfolding Objects.get_object lookup rank Payload.to_bytes Objects.unwrapped_payload Payload.new lift
    from_object
wrap_obj-unwrap_obj_example =
    wrap_obj-unwrap_obj keys keys-laws 7 9 ObjectType.hmac_key (replicate 13 0) both_objects
      wrap_only wrap_cipher hmac_object hmac_bytes sealed_hmac
      (Payload.hmac_key HmacAlgorithm.sha256 hmac_bytes) get_wrap_key_both get_wrap_key_only refl
      refl refl refl
      (record {
        capabilities_lt = omega arith;
        object_id_lt = omega arith;
        length_lt = omega arith;
        domains_lt = omega arith;
        sequence_lt = omega arith;
        label_full = refl;
      })
      refl refl
