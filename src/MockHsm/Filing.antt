-- ===== src/MockHsm/Filing.antt =====
-- The state of the simulated device is in order, whatever frames come (src/mockhsm).
use yubihsm_rs.Base.{ℕ, ◌≡◌, sym, List, Option, none, some}
use yubihsm_rs.Algorithm.Any.{Algorithm}
use yubihsm_rs.Algorithm.Wrap.{WrapAlgorithm, aes128_ccm}
use yubihsm_rs.Object.Info.{rank, Params}
use yubihsm_rs.Object.Types.{ObjectType}
use yubihsm_rs.Wrap.Info as WrapInfos
use yubihsm_rs.MockHsm.Entries.{Every, insert-Every, remove-Every}
use yubihsm_rs.MockHsm.Keys.{Keys}
use yubihsm_rs.MockHsm.Maps.{IsSorted, insert, insert-IsSorted, remove, remove-IsSorted}
use yubihsm_rs.MockHsm.Objects as Objects
use yubihsm_rs.MockHsm.Objects.{Object, Objects, OnObjects}
use yubihsm_rs.Base.Programs.{Keeps, keeps_rules, modify-Keeps, bind-Keeps, get-Keeps, assert-Keeps}

-- An object stands under the rank of its own number and type.
abbrev pub IsFiled : {K : Keys} → ℕ → Object K → Type 0
IsFiled k o = rank o.object_info.object_id o.object_info.object_type ≡ k

-- The objects are in the order of their handles, each under its own.
pub record AreFiled {K : Keys} (objects : Objects K) : Type 0 where
  pub sorted : IsSorted objects
  pub filed : Every IsFiled objects

module _ {K : Keys} where
  inserted-AreFiled :
      (id : ℕ) (ty : ObjectType) (o : Object K) (s : Objects K)
      → rank id ty ≡ rank o.object_info.object_id o.object_info.object_type
      → AreFiled s
      → AreFiled (insert (rank id ty) o s)
  inserted-AreFiled id ty o s e p = record {
    sorted = insert-IsSorted (rank id ty) o s p.sorted;
    filed = insert-Every IsFiled (rank id ty) o s (sym e) p.filed;
  }

  removed-AreFiled : (k : ℕ) (s : Objects K) → AreFiled s → AreFiled (remove k s)
  removed-AreFiled k s p = record {
    sorted = remove-IsSorted k s p.sorted;
    filed = remove-Every IsFiled k s p.filed;
  }

  found-Keeps : {A : Type 0} (o : Option A) → Keeps AreFiled (Objects.found {K = K} o)
  unfolding Objects.found
  found-Keeps none = search keeps_rules
  found-Keeps (some a) = search keeps_rules

  insert_new-Keeps :
      (id : ℕ) (ty : ObjectType) (o : Object K)
      → rank id ty ≡ rank o.object_info.object_id o.object_info.object_type
      → Keeps AreFiled (Objects.insert_new K id ty o)
  unfolding Objects.insert_new
  insert_new-Keeps id ty o e = bind-Keeps _ _ get-Keeps (λ objects.
      bind-Keeps _ _ (modify-Keeps _ (λ s. inserted-AreFiled id ty o s e)) (λ _. assert-Keeps _))

  pub generate-Keeps :
      (random : ℕ → List ℕ) (ty : ObjectType) (p : Params) (delegated : ℕ)
      → Keeps AreFiled (Objects.generate K random ty p delegated)
  unfolding Objects.generate
  generate-Keeps random ty p delegated = search (keeps_rules, insert_new-Keeps)

  pub put-Keeps :
      (ty : ObjectType) (p : Params) (delegated : ℕ) (bytes : List ℕ)
      → Keeps AreFiled (Objects.put K ty p delegated bytes)
  unfolding Objects.put
  put-Keeps ty p delegated bytes = search (keeps_rules, insert_new-Keeps)

  pub remove_object-Keeps :
      (id : ℕ) (ty : ObjectType) → Keeps AreFiled (Objects.remove_object K id ty)
  unfolding Objects.remove_object
  remove_object-Keeps id ty = search (keeps_rules, modify-Keeps, removed-AreFiled)

  new_ccm-Keeps :
      (alg : WrapAlgorithm) (bytes : List ℕ) → Keeps AreFiled (Objects.new_ccm K alg bytes)
  unfolding Objects.new_ccm
  new_ccm-Keeps aes128_ccm bytes = search keeps_rules
  new_ccm-Keeps _ bytes = search keeps_rules

  get_wrap_key-Keeps : (id : ℕ) → Keeps AreFiled (Objects.get_wrap_key K id)
  unfolding Objects.get_wrap_key
  get_wrap_key-Keeps id = search (keeps_rules, found-Keeps, new_ccm-Keeps) depth 20

  deciphered-Keeps : (o : Option (List ℕ)) → Keeps AreFiled (Objects.deciphered K o)
  unfolding Objects.deciphered
  deciphered-Keeps none = search keeps_rules
  deciphered-Keeps (some _) = search keeps_rules

  decrypt_in_place-Keeps :
      (key : Objects.AesCcmKey K) (nonce text buffer : List ℕ)
      → Keeps AreFiled (Objects.decrypt_in_place K key nonce text buffer)
  unfolding Objects.decrypt_in_place
  decrypt_in_place-Keeps key nonce text buffer = search deciphered-Keeps

  encrypted-Keeps :
      (key : Objects.AesCcmKey K) (nonce text buffer : List ℕ)
      → Keeps AreFiled (Objects.or_panic K (Objects.encrypt_in_place K key nonce text buffer))
  unfolding Objects.or_panic Objects.encrypt_in_place
  encrypted-Keeps key nonce text buffer = record { kept = λ s p. (deciphered-Keeps _).kept s p }

  unwrapped_payload-Keeps :
      (alg : Algorithm) (bytes : List ℕ) → Keeps AreFiled (Objects.unwrapped_payload K alg bytes)
  unfolding Objects.unwrapped_payload
  unwrapped_payload-Keeps (Algorithm.asymmetric alg) bytes = search keeps_rules
  unwrapped_payload-Keeps _ bytes = search keeps_rules

  pub unwrap_obj-Keeps :
      (id : ℕ) (nonce ciphertext : List ℕ)
      → Keeps AreFiled (Objects.unwrap_obj K id nonce ciphertext)
  unfolding Objects.unwrap_obj WrapInfos.into_object
  unwrap_obj-Keeps id nonce ciphertext =
      search
        (
          keeps_rules, get_wrap_key-Keeps, decrypt_in_place-Keeps, unwrapped_payload-Keeps,
          insert_new-Keeps,
        )
        depth 20

  pub wrap_obj-Keeps :
      (key id : ℕ) (ty : ObjectType) (nonce : List ℕ)
      → Keeps AreFiled (Objects.wrap_obj K key id ty nonce)
  unfolding Objects.wrap_obj
  wrap_obj-Keeps key id ty nonce =
      search (keeps_rules, get_wrap_key-Keeps, found-Keeps, encrypted-Keeps) depth 20
