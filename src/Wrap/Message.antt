-- ===== src/Wrap/Message.antt =====
-- Messages that carry a wrapped object, and what is encrypted in them (src/wrap/message.rs,
-- src/wrap/nonce.rs).
use yubihsm_rs.Base.{
  ℕ, ◌≡◌, ◌↔◌, refl, List, ◌++◌, length, take, drop, Option, some, Result, ok, err, ltb,
  if◌then◌else◌, arith, take_append, drop_append, take-append-drop, length-take, sym, ◌∙◌, ap,
  Bool-cases, inl, inr, length-append, ◌==◌, assert, ◌>>=◌, ◌>>◌, true, false,
}
use yubihsm_rs.Algorithm.Any as Algorithms
use yubihsm_rs.Algorithm.Any.{Algorithm}
use yubihsm_rs.Wire.{Shape, uint, rest, pair, Value, write, deserialize}
use yubihsm_rs.Wire.RoundTrip.{deserialize-write}
use yubihsm_rs.Wrap.Info.{
  WrapInfo, IsWellFormed, info_shape, info_value, info_of, info_of-info_value, info_value-Holds,
  field,
}

pub data WrapErrorKind : Type 0 where
  length_invalid invalid_primes rsa_precompute_failed unsupported_key_size algorithm_mismatch :
      WrapErrorKind

abbrev pub nonce_size : ℕ
nonce_size = 13

pub record Message : Type 0 where
  pub nonce : List ℕ
  pub ciphertext : List ℕ

-- `Nonce::from`: its assertion holds for the 13 bytes that `from_vec` cuts off.
unfoldable pub nonce_from : {E : Type 0} → List ℕ → Result E (List ℕ)
nonce_from bytes = do assert (length bytes == nonce_size); ok bytes

unfoldable pub from_vec : List ℕ → Result WrapErrorKind Message
from_vec vec = if ltb (length vec) nonce_size then err length_invalid else (do
  nonce ← nonce_from (take nonce_size vec)
  ok (record { nonce = nonce; ciphertext = drop nonce_size vec }))

unfoldable pub into_vec : Message → List ℕ
into_vec m = m.nonce ++ m.ciphertext

nonce_from_ok :
    {E : Type 0} (bytes : List ℕ) → length bytes ≡ nonce_size → nonce_from {E = E} bytes ≡ ok bytes
unfolding nonce_from
nonce_from_ok bytes h = rw h refl

abbrev parts : List ℕ → Message
parts vec = record { nonce = take nonce_size vec; ciphertext = drop nonce_size vec }

from_vec_short :
    (vec : List ℕ) → ltb (length vec) nonce_size ≡ true → from_vec vec ≡ err length_invalid
unfolding from_vec
from_vec_short vec h = rw h

from_vec_long : (vec : List ℕ) → ltb (length vec) nonce_size ≡ false → from_vec vec ≡ ok (parts vec)
unfolding from_vec
from_vec_long vec h = rw h (
    rw (
      nonce_from_ok {E = WrapErrorKind} (take nonce_size vec)
        (ground (arith, length-take nonce_size vec))))

-- A byte string is read as a message exactly if the message has a nonce of 13 bytes and is written
-- as the string.
pub wrap_message-from_vec_iff :
    (vec : List ℕ) (m : Message)
    → (from_vec vec ≡ ok m) ↔ ((into_vec m ≡ vec) × (length m.nonce ≡ nonce_size))
unfolding into_vec
wrap_message-from_vec_iff vec m = (
  λ e. elim (Bool-cases (ltb (length vec) nonce_size)) [
    | inl short ↦ absurd (apart (sym (from_vec_short vec short) ∙ e))
    | inr long ↦ of_parts long (sym (from_vec_long vec long) ∙ e)
  ],
  λ p. rw (sym p.0) (
      from_vec_long (m.nonce ++ m.ciphertext)
        (ground (arith, length-append m.nonce m.ciphertext, p.1))
      ∙ rw (
        take_append nonce_size m.nonce m.ciphertext (sym p.1),
        drop_append nonce_size m.nonce m.ciphertext (sym p.1),
      )),
)
  where
    apart : ◌≡◌ {A = Result WrapErrorKind Message} (err length_invalid) (ok m) → ⊥
    apart e = cc

    same : ◌≡◌ {A = Result WrapErrorKind Message} (ok (parts vec)) (ok m) → parts vec ≡ m
    same e = cc

    of_parts :
        ltb (length vec) nonce_size ≡ false
        → ◌≡◌ {A = Result WrapErrorKind Message} (ok (parts vec)) (ok m)
        → (m.nonce ++ m.ciphertext ≡ vec) × (length m.nonce ≡ nonce_size)
    of_parts long e = (
      sym (ap (λ k. k.nonce ++ k.ciphertext) (same e)) ∙ take-append-drop nonce_size vec,
      sym (ap (λ k. length k.nonce) (same e)) ∙ ground (arith, length-take nonce_size vec, long),
    )

-- An object under wrap: `WrappedObject` of src/mockhsm/object.rs, and `Plaintext`, whose algorithm
-- is one for wrap keys.
pub record WrappedObject : Type 0 where
  pub alg_id : Algorithm
  pub object_info : WrapInfo
  pub payload_bytes : List ℕ

abbrev pub wrapped_shape : Shape
wrapped_shape = pair (uint 1) (pair info_shape rest)

unfoldable pub serialize : WrappedObject → List ℕ
unfolding Algorithms.to_u8
serialize o =
    write wrapped_shape (Algorithms.to_u8 o.alg_id, (info_value o.object_info, o.payload_bytes))

unfoldable pub wrapped_of : Value wrapped_shape → Option WrappedObject
unfolding Algorithms.from_u8
wrapped_of (algorithm_byte, (info, payload_bytes)) =
    field (Algorithms.from_u8 algorithm_byte) (λ alg_id. elim (info_of info) [
      | Option.none ↦ Option.none
      | some object_info ↦
          some
            (record { alg_id = alg_id; object_info = object_info; payload_bytes = payload_bytes })
    ])

unfoldable pub parse : List ℕ → Option WrappedObject
parse bytes = field (deserialize wrapped_shape bytes) wrapped_of

-- An object under wrap whose fields hold what their bytes can hold is read back from its bytes.
pub wrapped_object_parse-serialize :
    (o : WrappedObject) → IsWellFormed o.object_info → parse (serialize o) ≡ some o
unfolding parse serialize
wrapped_object_parse-serialize o w =
    rw
      (deserialize-write wrapped_shape
        (Algorithms.to_u8 o.alg_id, (info_value o.object_info, o.payload_bytes))
        (tt, ((tt, (tt, (tt, (tt, (tt, (tt, (tt, (tt, tt)))))))), tt))
        (Algorithms.to_u8-IsByte o.alg_id, (info_value-Holds o.object_info w, tt)))
      (unfold wrapped_of field in
        rw (Algorithms.from_u8-to_u8 o.alg_id) (rw (info_of-info_value o.object_info)))
