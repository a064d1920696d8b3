-- ===== src/MockHsm/Wrapping.antt =====
-- An object that is exported under a wrap key and imported again (src/mockhsm/object/objects.rs).
use yubihsm_rs.Base.{ℕ, ◌≡◌, refl, sym, List, [], none, some, true, ok}
use yubihsm_rs.Base.Programs.{◌>>=◌, get, modify, lift, assert, pure, fail}
use yubihsm_rs.Object.Info.{rank, Info}
use yubihsm_rs.Object.Origins.{Origin}
use yubihsm_rs.Object.Types.{ObjectType}
use yubihsm_rs.Wrap.Info as WrapInfos
use yubihsm_rs.Wrap.Info.{WrapInfo, from_object, into_object}
use yubihsm_rs.Wrap.Message as Wrapped
use yubihsm_rs.Wrap.Message.{WrappedObject}
use yubihsm_rs.MockHsm.Error.{HsmErrorKind}
use yubihsm_rs.MockHsm.Keys.{Keys, CcmLaws}
use yubihsm_rs.MockHsm.Maps.{insert}
use yubihsm_rs.MockHsm.Objects as Objects
use yubihsm_rs.MockHsm.Objects.{Object, Objects, wrapped_copy, wrapped_origin}
use yubihsm_rs.MockHsm.Payload as Payload
use yubihsm_rs.MockHsm.Payload.{Payload}

module _ (K : Keys) where
  -- The info of an object after it was exported and imported: its origin says that it was wrapped,
  -- and whether it was generated or imported before, and its delegated capabilities are gone.
  abbrev pub reimported : Info → Info
  reimported info = record info {
    origin = (elim info.origin [
      | Origin.generated ↦ Origin.wrapped_generated
      | Origin.imported ↦ Origin.wrapped_imported
      | Origin.wrapped_generated ↦ Origin.wrapped_generated
      | Origin.wrapped_imported ↦ Origin.wrapped_imported
    ]);
    delegated_capabilities = 0;
  }

  wrapped_origin-eq :
      (origin : Origin)
      → wrapped_origin origin ≡ elim origin [
        | Origin.generated ↦ Origin.wrapped_generated
        | Origin.imported ↦ Origin.wrapped_imported
        | Origin.wrapped_generated ↦ Origin.wrapped_generated
        | Origin.wrapped_imported ↦ Origin.wrapped_imported
      ]
  unfolding wrapped_origin
  wrapped_origin-eq Origin.generated = refl
  wrapped_origin-eq Origin.imported = refl
  wrapped_origin-eq Origin.wrapped_generated = refl
  wrapped_origin-eq Origin.wrapped_imported = refl

  -- The object that comes back, with a payload.
  abbrev pub returned : Object K → Payload K → Object K
  returned o payload = record { object_info = reimported o.object_info; payload = payload }

  -- An object that may be exported is exported as what its copy is encrypted to.
  wrap_obj_ok :
      (key_id id : ℕ) (ty : ObjectType) (nonce : List ℕ) (s : Objects K) (key : Objects.AesCcmKey K)
      (o : Object K) (bytes sealed : List ℕ)
      → Objects.get_wrap_key K key_id s ≡ (ok key, s)
      → Objects.get_object K id ty s ≡ some o
      → K.contains o.object_info.capabilities Objects.exportable_under_wrap ≡ true
      → Payload.to_bytes K {E = HsmErrorKind} o.payload ≡ ok bytes
      → K.ccm_encrypt_in_place
          (Objects.cipher K key)
          nonce
          []
          (Wrapped.serialize (wrapped_copy (Objects.key_algorithm K key) o.object_info bytes))
        ≡ some sealed
      → Objects.wrap_obj K key_id id ty nonce s ≡ (ok sealed, s)
  unfolding Objects.wrap_obj Objects.found Objects.or_panic Objects.encrypt_in_place
      Objects.deciphered ◌>>=◌ get lift pure fail
  wrap_obj_ok key_id id ty nonce s key o bytes sealed hk ho hc hb hs =
      rw hk (rw ho (rw hc (rw hb (rw hs))))

  unwrap_obj_ok :
      (key_id : ℕ) (nonce sealed : List ℕ) (t : Objects K) (key : Objects.AesCcmKey K)
      (w : WrappedObject) (payload : Payload K)
      → Objects.get_wrap_key K key_id t ≡ (ok key, t)
      → K.ccm_decrypt_in_place (Objects.cipher K key) nonce [] sealed ≡ some (Wrapped.serialize w)
      → WrapInfos.IsWellFormed w.object_info
      → Objects.unwrapped_payload K w.object_info.algorithm w.payload_bytes t ≡ (ok payload, t)
      → Objects.get_object K w.object_info.object_id w.object_info.object_type t ≡ none
      → Objects.unwrap_obj K key_id nonce sealed t ≡ (
        ok (record {
          object_id = w.object_info.object_id;
          object_type = w.object_info.object_type;
        }),
        insert
            (rank w.object_info.object_id w.object_info.object_type)
            (record { object_info = into_object w.object_info; payload = payload })
            t,
      )
  unfolding Objects.unwrap_obj Objects.decrypt_in_place Objects.deciphered Objects.insert_new
      Objects.is_none Objects.get_object ◌>>=◌ get lift pure fail modify assert
  unwrap_obj_ok key_id nonce sealed t key w payload hk hd hw hp hn =
      rw hk (rw hd (rw (Wrapped.wrapped_object_parse-serialize w hw) (rw hp (rw hn))))

  -- An object that a wrap key exports comes back when a device with that wrap key, which has no
  -- object with its handle, imports it under the same nonce: with the handle that is returned, as
  -- an object whose payload is made of the bytes that were exported, and whose info is the same but
  -- for its origin, which says that it was wrapped, and its delegated capabilities, which are empty.
  -- The key may export it, its fields hold what their bytes can hold, and its payload can be made
  -- of its bytes.
  pub wrap_obj-unwrap_obj :
      CcmLaws K
      → (key_id id : ℕ) (ty : ObjectType) (nonce : List ℕ) (s t : Objects K)
        (key : Objects.AesCcmKey K) (o : Object K) (bytes sealed : List ℕ) (payload : Payload K)
      → Objects.get_wrap_key K key_id s ≡ (ok key, s)
      → Objects.get_wrap_key K key_id t ≡ (ok key, t)
      → Objects.get_object K id ty s ≡ some o
      → K.contains o.object_info.capabilities Objects.exportable_under_wrap ≡ true
      → Payload.to_bytes K {E = HsmErrorKind} o.payload ≡ ok bytes
      → K.ccm_encrypt_in_place
          (Objects.cipher K key)
          nonce
          []
          (Wrapped.serialize (wrapped_copy (Objects.key_algorithm K key) o.object_info bytes))
        ≡ some sealed
      → WrapInfos.IsWellFormed (from_object o.object_info)
      → Objects.unwrapped_payload K o.object_info.algorithm bytes t ≡ (ok payload, t)
      → Objects.get_object K o.object_info.object_id o.object_info.object_type t ≡ none
      → (Objects.wrap_obj K key_id id ty nonce s ≡ (ok sealed, s))
        × (Objects.unwrap_obj K key_id nonce sealed t ≡ (
          ok (record {
            object_id = o.object_info.object_id;
            object_type = o.object_info.object_type;
          }),
          insert (rank o.object_info.object_id o.object_info.object_type) (returned o payload) t,
        ))
  unfolding from_object into_object
  wrap_obj-unwrap_obj laws key_id id ty nonce s t key o bytes sealed payload hk hk' ho hc hb hs hw
        hp hn =
      (
        wrap_obj_ok key_id id ty nonce s key o bytes sealed hk ho hc hb hs,
        rw (sym (wrapped_origin-eq o.object_info.origin)) (
            unwrap_obj_ok key_id nonce sealed t key
              (wrapped_copy (Objects.key_algorithm K key) o.object_info bytes) payload hk'
              (laws.ccm_decrypt-ccm_encrypt (Objects.cipher K key) nonce [] _ sealed hs)
              (record {
                capabilities_lt = hw.capabilities_lt;
                object_id_lt = hw.object_id_lt;
                length_lt = hw.length_lt;
                domains_lt = hw.domains_lt;
                sequence_lt = hw.sequence_lt;
                label_full = hw.label_full;
              })
              hp hn),
      )
