-- ===== src/MockHsm/Preserved.antt =====
-- Every frame leaves the simulated device in order (src/mockhsm/command.rs,
-- src/mockhsm/connection.rs). The handlers of requests come first; the frames are a child.
pub mod Signed
pub mod Handled
pub mod Frames
use yubihsm_rs.Base.{
  ℕ, List, [], ◌∷◌, Option, none, some, Bool, true, false, Result, ok, err, panic, ◌≡◌, refl, sym,
}
use mathlib.Core.Path.{subst}
use yubihsm_rs.Base.Programs.{
  Keeps, keeps_rules, modify-Keeps, bind-Keeps, get-Keeps, assert-Keeps, lift-Keeps, if-Keeps,
  modify, ◌>>=◌,
}
use yubihsm_rs.Device.Error.{DeviceErrorKind}
use yubihsm_rs.Audit.Tag.{AuditTag}
use yubihsm_rs.Command.Code.{CommandCode}
use yubihsm_rs.Command.Message.{CommandMessage}
use yubihsm_rs.Object.Types.{ObjectType}
use yubihsm_rs.Response.Message.{ResponseMessage}
use yubihsm_rs.Session.SecureChannel.Crypto.{Crypto}
use yubihsm_rs.MockHsm.Commands.Device as Device
use yubihsm_rs.MockHsm.Commands.Signing as Signing
use yubihsm_rs.MockHsm.Commands.Signing.{Signers}
use yubihsm_rs.MockHsm.Commands.Storage as Storage
use yubihsm_rs.MockHsm.Connection as Connection
use yubihsm_rs.MockHsm.Entries.{Every}
use yubihsm_rs.MockHsm.Error.{HsmErrorKind, ConnectorErrorKind}
use yubihsm_rs.MockHsm.Filing.{
  AreFiled, generate-Keeps, put-Keeps, remove_object-Keeps, unwrap_obj-Keeps, wrap_obj-Keeps,
}
use yubihsm_rs.MockHsm.Keys.{Keys}
use yubihsm_rs.MockHsm.Listing as Listing
use yubihsm_rs.MockHsm.Maps.{IsSorted}
use yubihsm_rs.MockHsm.Objects as Objects
use yubihsm_rs.MockHsm.Objects.{Object, OnObjects}
use yubihsm_rs.MockHsm.Payload.{Payload}
use yubihsm_rs.MockHsm.Requests.{success, refused}
use yubihsm_rs.MockHsm.State as State
use yubihsm_rs.MockHsm.State.{State, Hsm}
use yubihsm_rs.MockHsm.Validity.{
  IsValid, IsNumbered, on_objects-Keeps, get_session-Keeps, on_channel-Keeps, removed-Keeps,
  reset-IsValid, new-IsValid, create_session-Keeps,
}

-- What is asked of a property of the state: it does not depend on the options, and operations that
-- keep the objects in order keep it.
pub record Rules (K : Keys) (P : State K → Type 0) : Type 1 where
  pub objects : {A : Type 0} (m : OnObjects K A) → Keeps AreFiled m → Keeps P (State.on_objects K m)
  pub options :
      (f : State K → State K)
      → ((s : State K) → ((f s).objects ≡ s.objects) × ((f s).sessions ≡ s.sessions))
      → Keeps {E = ConnectorErrorKind} P (modify f)

module _ {K : Keys} {P : State K → Type 0} where
  pub success-Keeps :
      (code : CommandCode) (bytes : List ℕ) → Keeps {E = ConnectorErrorKind} P (success code bytes)
  unfolding success
  success-Keeps code bytes = search keeps_rules

  pub refused-Keeps : (kind : DeviceErrorKind) → Keeps {E = ConnectorErrorKind} P (refused kind)
  unfolding refused
  refused-Keeps kind = search keeps_rules

  pub ruleset rules = (keeps_rules, success-Keeps, refused-Keeps)

  deleted-Keeps :
      (o : Option (Object K))
      → Keeps {E = ConnectorErrorKind} P (elim o as (λ _. Hsm K ResponseMessage) [
        | some _ ↦ success CommandCode.delete_object []
        | none ↦ refused DeviceErrorKind.object_not_found
      ])
  deleted-Keeps none = search rules
  deleted-Keeps (some _) = search rules

  -- What is answered for an object that is looked up.
  pub looked_up-Keeps :
      (o : Option (Object K)) (f : Object K → Hsm K ResponseMessage)
      → ((obj : Object K) → Keeps P (f obj))
      → Keeps P (elim o as (λ _. Hsm K ResponseMessage) [
        | some obj ↦ f obj
        | none ↦ refused DeviceErrorKind.object_not_found
      ])
  looked_up-Keeps none f h = search rules
  looked_up-Keeps (some obj) f h = h obj

  pub get_object_info-Keeps : (bytes : List ℕ) → Keeps P (Storage.get_object_info K bytes)
  unfolding Storage.get_object_info
  get_object_info-Keeps bytes =
      bind-Keeps _ _ (lift-Keeps _)
        (λ _. bind-Keeps _ _ get-Keeps (λ s. looked_up-Keeps _ _ (λ obj. success-Keeps _ _)))

  pub get_opaque-Keeps : (bytes : List ℕ) → Keeps P (Storage.get_opaque K bytes)
  unfolding Storage.get_opaque
  get_opaque-Keeps bytes = bind-Keeps _ _ (lift-Keeps _) (λ _.
      bind-Keeps _ _ get-Keeps
        (λ s. looked_up-Keeps _ _ (λ obj. bind-Keeps _ _ (lift-Keeps _) (λ _. success-Keeps _ _))))

  public_key-Keeps : (obj : Object K) → Keeps P (Storage.public_key K obj)
  unfolding Storage.public_key
  public_key-Keeps obj = search keeps_rules depth 20

  pub get_public_key-Keeps : (bytes : List ℕ) → Keeps P (Storage.get_public_key K bytes)
  unfolding Storage.get_public_key
  get_public_key-Keeps bytes = bind-Keeps _ _ (lift-Keeps _) (λ _. bind-Keeps _ _ get-Keeps (λ s.
      looked_up-Keeps _ _ (λ obj. bind-Keeps _ _ (public_key-Keeps obj) (λ _. success-Keeps _ _))))

  answered-Keeps :
      {A : Type 0} (answer : A → Hsm K ResponseMessage) (r : Result HsmErrorKind A)
      → ((a : A) → Keeps P (answer a))
      → Keeps P (Storage.answered K answer r)
  unfolding Storage.answered
  answered-Keeps answer (ok a) h = h a
  answered-Keeps answer (err e) h = search rules
  answered-Keeps answer panic h = search rules

  pub list_objects-Keeps : (bytes : List ℕ) → Keeps P (Listing.list_objects K bytes)
  unfolding Listing.list_objects
  list_objects-Keeps bytes = search rules depth 20

  pub get_option-Keeps : (bytes : List ℕ) → Keeps P (Device.get_option K bytes)
  unfolding Device.get_option
  get_option-Keeps bytes = search rules depth 20

  pub get_pseudo_random-Keeps :
      (random : ℕ → List ℕ) (bytes : List ℕ) → Keeps P (Device.get_pseudo_random K random bytes)
  unfolding Device.get_pseudo_random
  get_pseudo_random-Keeps random bytes = search rules depth 20

module _ {K : Keys} {P : State K → Type 0} (R : Rules K P) where
  pub infallible-Keeps :
      {A : Type 0} (m : OnObjects K A) → Keeps AreFiled m → Keeps P (Storage.infallible K m)
  unfolding Storage.infallible
  infallible-Keeps m h = bind-Keeps _ _ (R.objects m h) (λ r. lift-Keeps _)

  pub delete_object-Keeps : (bytes : List ℕ) → Keeps P (Storage.delete_object K bytes)
  unfolding Storage.delete_object
  delete_object-Keeps bytes =
      search (rules, infallible-Keeps, remove_object-Keeps, deleted-Keeps) depth 20

  pub gen_key-Keeps :
      (random : ℕ → List ℕ) (ty : ObjectType) (code : CommandCode) (bytes : List ℕ)
      → Keeps P (Storage.gen_key K random ty code bytes)
  unfolding Storage.gen_key
  gen_key-Keeps random ty code bytes = search (rules, infallible-Keeps, generate-Keeps) depth 20

  pub gen_wrap_key-Keeps :
      (random : ℕ → List ℕ) (bytes : List ℕ) → Keeps P (Storage.gen_wrap_key K random bytes)
  unfolding Storage.gen_wrap_key
  gen_wrap_key-Keeps random bytes = search (rules, infallible-Keeps, generate-Keeps) depth 20

  pub put_object-Keeps :
      (ty : ObjectType) (code : CommandCode) (bytes : List ℕ)
      → Keeps P (Storage.put_object K ty code bytes)
  unfolding Storage.put_object
  put_object-Keeps ty code bytes = search (rules, infallible-Keeps, put-Keeps) depth 20

  pub put_authentication_key-Keeps :
      (bytes : List ℕ) → Keeps P (Storage.put_authentication_key K bytes)
  unfolding Storage.put_authentication_key
  put_authentication_key-Keeps bytes = search (rules, infallible-Keeps, put-Keeps) depth 20

  pub put_wrap_key-Keeps : (bytes : List ℕ) → Keeps P (Storage.put_wrap_key K bytes)
  unfolding Storage.put_wrap_key
  put_wrap_key-Keeps bytes = search (rules, infallible-Keeps, put-Keeps) depth 20

  pub export_wrapped-Keeps :
      (random : ℕ → List ℕ) (bytes : List ℕ) → Keeps P (Storage.export_wrapped K random bytes)
  unfolding Storage.export_wrapped
  export_wrapped-Keeps random bytes =
      search (rules, R.objects, wrap_obj-Keeps, answered-Keeps) depth 20

  pub import_wrapped-Keeps : (bytes : List ℕ) → Keeps P (Storage.import_wrapped K bytes)
  unfolding Storage.import_wrapped
  import_wrapped-Keeps bytes = search (rules, R.objects, unwrap_obj-Keeps, answered-Keeps) depth 20

  set_option-Keeps :
      (tag : AuditTag) (length : ℕ) (value : List ℕ)
      → Keeps P (Device.set_option K tag length value)
  unfolding Device.set_option
  set_option-Keeps AuditTag.force length value =
      bind-Keeps _ _ (assert-Keeps _)
        (λ _. bind-Keeps _ _ (lift-Keeps _) (λ o. R.options _ (λ s. (refl, refl))))
  set_option-Keeps AuditTag.command length value =
      bind-Keeps _ _ (assert-Keeps _)
        (λ _. bind-Keeps _ _ (lift-Keeps _) (λ o. R.options _ (λ s. (refl, refl))))
  set_option-Keeps AuditTag.fips length value =
      bind-Keeps _ _ (assert-Keeps _)
        (λ _. bind-Keeps _ _ (lift-Keeps _) (λ o. R.options _ (λ s. (refl, refl))))

  pub put_option-Keeps : (bytes : List ℕ) → Keeps P (Device.put_option K bytes)
  unfolding Device.put_option
  put_option-Keeps bytes = search (rules, set_option-Keeps) depth 20
