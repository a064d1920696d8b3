-- ===== src/MockHsm/Lookups.antt =====
-- What is found among the objects after they change (src/mockhsm/object/objects.rs).
use yubihsm_rs.Base.{
  ℕ, ◌≡◌, refl, sym, ap, ◌∙◌, List, Option, none, some, true, false, Result, ok, arith, ◌==◌,
  ==_iff, ==_refl, Bool-cases, inl, inr,
}
use yubihsm_rs.Base.Programs.{◌>>=◌, get, modify, lift, pure, >>=-ok, lift-ok, assert-ok}
use mathlib.Core.Path.{subst}
use yubihsm_rs.Object.Info.{rank, Params}
use yubihsm_rs.Object.Error.{ObjectErrorKind}
use yubihsm_rs.Object.Origins.{Origin}
use yubihsm_rs.Object.Types
use yubihsm_rs.Object.Types.{ObjectType}
use yubihsm_rs.MockHsm.Error.{HsmErrorKind}
use yubihsm_rs.MockHsm.Keys.{Keys}
use yubihsm_rs.MockHsm.Lengths.{recorded_length, len-new}
use yubihsm_rs.MockHsm.Made.{IsMadeOf, new-IsMadeOf}
use yubihsm_rs.MockHsm.Maps.{lookup, insert, remove, lookup-insert, lookup-remove}
use yubihsm_rs.MockHsm.Objects as Objects
use yubihsm_rs.MockHsm.Objects.{Object, Objects, described}
use yubihsm_rs.MockHsm.Payload as Payload
use yubihsm_rs.MockHsm.Payload.{Payload}

-- Two handles of one rank are the same.
pub rank-inj :
    (id id' : ℕ) (ty ty' : ObjectType) → rank id ty ≡ rank id' ty' → (id ≡ id') × (ty ≡ ty')
unfolding rank
rank-inj id id' ty ty' e = (
  omega (arith, Types.to_u8-IsByte ty, Types.to_u8-IsByte ty'),
  type_of (omega (arith, Types.to_u8-IsByte ty, Types.to_u8-IsByte ty')),
)
  where
    same : ◌≡◌ {A = Result ObjectErrorKind ObjectType} (ok ty) (ok ty') → ty ≡ ty'
    same e = cc

    type_of : Types.to_u8 ty ≡ Types.to_u8 ty' → ty ≡ ty'
    type_of h = same (sym (Types.from_u8-to_u8 ty) ∙ ap Types.from_u8 h ∙ Types.from_u8-to_u8 ty')

module _ (K : Keys) where
  none_of : (o : Option (Object K)) → Objects.is_none o ≡ true → o ≡ none
  unfolding Objects.is_none
  none_of none e = refl
  none_of (some a) e = cc

  insert_new-ok :
      (id : ℕ) (ty : ObjectType) (o : Object K) (s t : Objects K)
      → Objects.insert_new K id ty o s ≡ (ok tt, t)
      → (Objects.get_object K id ty s ≡ none) × (insert (rank id ty) o s ≡ t)
  unfolding Objects.insert_new Objects.get_object ◌>>=◌ get modify
  insert_new-ok id ty o s t e =
      let (free, same) =
        assert-ok (Objects.is_none (lookup (rank id ty) s)) (insert (rank id ty) o s) e in
      (none_of (lookup (rank id ty) s) free, same)

  apart :
      (id id' : ℕ) (ty ty' : ObjectType)
      → ((id' ≡ id) × (ty' ≡ ty) → ⊥)
      → (rank id' ty' == rank id ty) ≡ false
  apart id id' ty ty' other = elim (Bool-cases (rank id' ty' == rank id ty)) [
    | inl same ↦ absurd (other (rank-inj id' id ty' ty ((==_iff _ _).0 same)))
    | inr h ↦ h
  ]

  -- What the handles lead to after an insertion.
  pub inserted-get_object :
      (id : ℕ) (ty : ObjectType) (o : Object K) (s : Objects K)
      → (Objects.get_object K id ty (insert (rank id ty) o s) ≡ some o)
        × ((id' : ℕ) (ty' : ObjectType)
            → ((id' ≡ id) × (ty' ≡ ty) → ⊥)
            → Objects.get_object K id' ty' (insert (rank id ty) o s)
              ≡ Objects.get_object K id' ty' s)
  unfolding Objects.get_object
  inserted-get_object id ty o s = (
    rw (lookup-insert (rank id ty) (rank id ty) o s) (rw (==_refl (rank id ty))),
    λ id' ty' other.
        rw (lookup-insert (rank id' ty') (rank id ty) o s) (rw (apart id id' ty ty' other)),
  )

  put_as : ObjectType → Params → ℕ → Payload K → Object K
  put_as ty p delegated payload = record {
    object_info = described ty p delegated Origin.imported (Payload.len K payload);
    payload = payload;
  }

  -- If an object is put, there was none with its handle. Afterwards the handle leads to an object
  -- with the parameters and the type that were given, each in its field, which is imported, has the
  -- sequence number 1 and the payload that is made of the bytes: the bytes themselves with the
  -- algorithm, the key of 32 bytes that is read from them, or the RSA key of the two primes that are
  -- the halves of the bytes. The length is that of the bytes, or for an RSA key that of the modulus,
  -- modulo 2 ^ 16. Every other handle leads to what it led to before.
  pub put-get_object :
      (ty : ObjectType) (p : Params) (delegated : ℕ) (bytes : List ℕ) (s t : Objects K)
      → Objects.put K ty p delegated bytes s ≡ (ok tt, t)
      → (payload : Payload K) × (Payload.new K {E = HsmErrorKind} p.algorithm bytes ≡ ok payload)
        × IsMadeOf K p.algorithm bytes payload
        × (Objects.get_object K p.id ty s ≡ none)
        × (Objects.get_object K p.id ty t
            ≡ some (record {
              object_info = record {
                capabilities = p.capabilities;
                object_id = p.id;
                length = recorded_length K payload bytes;
                domains = p.domains;
                object_type = ty;
                algorithm = p.algorithm;
                sequence = 1;
                origin = Origin.imported;
                label = p.label;
                delegated_capabilities = delegated;
              };
              payload = payload;
            }))
        × ((id : ℕ) (other : ObjectType)
            → ((id ≡ p.id) × (other ≡ ty) → ⊥)
            → Objects.get_object K id other t ≡ Objects.get_object K id other s)
  unfolding Objects.put put_as
  put-get_object ty p delegated bytes s t e =
      let (payload, u, made, rest) = >>=-ok (lift (Payload.new K p.algorithm bytes)) _ s e in
      let (new, same) = lift-ok (Payload.new K p.algorithm bytes) s made in
      let (free, inserted) = insert_new-ok p.id ty (put_as ty p delegated payload) s t (
        subst (λ v. Objects.insert_new K p.id ty (put_as ty p delegated payload) v ≡ (ok tt, t))
          (sym same) rest) in
      let (here, there) = inserted-get_object p.id ty (put_as ty p delegated payload) s in
      (
        payload,
        new,
        new-IsMadeOf K p.algorithm bytes payload new,
        free,
        rw (sym (len-new K p.algorithm bytes payload new))
            (ap (Objects.get_object K p.id ty) (sym inserted) ∙ here),
        λ id other h. ap (Objects.get_object K id other) (sym inserted) ∙ there id other h,
      )

  -- `remove` returns what the handle led to. Afterwards the handle leads nowhere, and every other
  -- handle leads to what it led to before.
  pub remove_object-get_object :
      (id : ℕ) (ty : ObjectType) (s : Objects K)
      → (t : Objects K) × (Objects.remove_object K id ty s ≡ (ok (Objects.get_object K id ty s), t))
        × (Objects.get_object K id ty t ≡ none)
        × ((id' : ℕ) (ty' : ObjectType)
            → ((id' ≡ id) × (ty' ≡ ty) → ⊥)
            → Objects.get_object K id' ty' t ≡ Objects.get_object K id' ty' s)
  unfolding Objects.remove_object Objects.get_object ◌>>=◌ get modify pure
  remove_object-get_object id ty s = (
    remove (rank id ty) s,
    refl,
    rw (lookup-remove (rank id ty) (rank id ty) s) (rw (==_refl (rank id ty))),
    λ id' ty' other.
        rw (lookup-remove (rank id' ty') (rank id ty) s) (rw (apart id id' ty ty' other)),
  )
