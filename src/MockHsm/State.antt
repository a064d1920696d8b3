-- ===== src/MockHsm/State.antt =====
-- The state of the simulated device, and its sessions (src/mockhsm/state.rs, src/mockhsm/session.rs,
-- src/mockhsm/audit.rs).
use yubihsm_rs.Base.{
  ℕ, Option, none, some, List, [], ◌∷◌, Result, ok, expect, unwrap, Bool, true, false,
}
use yubihsm_rs.Base.Actions.{Action}
use yubihsm_rs.Base.Programs.{pure, fail, get, modify, lift, assert, ◌>>=◌, ◌>>◌}
use yubihsm_rs.Audit.Option as AuditOptions
use yubihsm_rs.Audit.Option.{AuditOption, off, on}
use yubihsm_rs.Command.Code as CommandCodes
use yubihsm_rs.Command.Code.{CommandCode}
use yubihsm_rs.Session.Error.{SessionErrorKind}
use yubihsm_rs.Session.Id
use yubihsm_rs.Session.Id.{SessionId}
use yubihsm_rs.Session.SecureChannel.Crypto.{Crypto}
use yubihsm_rs.Session.SecureChannel.Channel as Channel
use yubihsm_rs.Session.SecureChannel.Channel.{SecureChannel}
use yubihsm_rs.Session.SecureChannel.Host.{Channels}
use yubihsm_rs.Object.Types.{ObjectType}
use yubihsm_rs.MockHsm.Error.{HsmErrorKind, ConnectorErrorKind, request_error}
use yubihsm_rs.MockHsm.Keys.{Keys}
use yubihsm_rs.MockHsm.Maps.{Map, lookup, insert, remove, max_key}
use yubihsm_rs.MockHsm.Objects.{Objects, OnObjects, default_objects, get_object}
use yubihsm_rs.MockHsm.Payload

pub record HsmSession : Type 0 where
  pub id : SessionId
  pub card_challenge : List ℕ
  pub channel : SecureChannel

-- `HsmSession::new`
unfoldable pub new_session : SessionId → List ℕ → SecureChannel → HsmSession
new_session id card_challenge channel = record {
  id = id;
  card_challenge = card_challenge;
  channel = channel;
}

-- `CommandAuditOptions`, by the codes' bytes.
abbrev pub CommandAuditOptions : Type 0
CommandAuditOptions = Map AuditOption

pub record State (K : Keys) : Type 0 where
  pub command_audit_options : CommandAuditOptions
  pub force_audit : AuditOption
  pub fips : AuditOption
  pub sessions : Map HsmSession
  pub objects : Objects K

abbrev pub Hsm : Keys → Type 0 → Type 0
Hsm K A = Action ConnectorErrorKind (State K) A

-- `DEFAULT_COMMAND_AUDIT_OPTIONS`
unfoldable pub default_command_audit_options : List (CommandCode × AuditOption)
default_command_audit_options =
    (CommandCode.echo, off)
    ∷ (CommandCode.create_session, on)
    ∷ (CommandCode.authenticate_session, on)
    ∷ (CommandCode.session_message, off)
    ∷ (CommandCode.device_info, off)
    ∷ (CommandCode.bsl, off)
    ∷ (CommandCode.command9, off)
    ∷ (CommandCode.reset_device, on)
    ∷ (CommandCode.close_session, on)
    ∷ (CommandCode.get_storage_info, on)
    ∷ (CommandCode.put_opaque_object, on)
    ∷ (CommandCode.get_opaque_object, on)
    ∷ (CommandCode.put_authentication_key, on)
    ∷ (CommandCode.put_asymmetric_key, on)
    ∷ (CommandCode.generate_asymmetric_key, on)
    ∷ (CommandCode.sign_pkcs1, on)
    ∷ (CommandCode.sign_pss, on)
    ∷ (CommandCode.sign_ecdsa, on)
    ∷ (CommandCode.list_objects, on)
    ∷ (CommandCode.decrypt_pkcs1, on)
    ∷ (CommandCode.derive_ecdh, on)
    ∷ (CommandCode.export_wrapped, on)
    ∷ (CommandCode.import_wrapped, on)
    ∷ (CommandCode.put_wrap_key, on)
    ∷ (CommandCode.get_log_entries, off)
    ∷ (CommandCode.set_log_index, on)
    ∷ (CommandCode.get_object_info, on)
    ∷ (CommandCode.set_option, on)
    ∷ (CommandCode.get_option, on)
    ∷ (CommandCode.get_pseudo_random, on)
    ∷ (CommandCode.put_hmac_key, on)
    ∷ (CommandCode.sign_hmac, on)
    ∷ (CommandCode.get_public_key, on)
    ∷ (CommandCode.delete_object, on)
    ∷ (CommandCode.decrypt_oaep, on)
    ∷ (CommandCode.generate_hmac_key, on)
    ∷ (CommandCode.generate_wrap_key, on)
    ∷ (CommandCode.verify_hmac, on)
    ∷ (CommandCode.sign_ssh_certificate, on)
    ∷ (CommandCode.put_template, on)
    ∷ (CommandCode.get_template, on)
    ∷ (CommandCode.decrypt_otp, on)
    ∷ (CommandCode.create_otp_aead, on)
    ∷ (CommandCode.randomize_otp_aead, on)
    ∷ (CommandCode.rewrap_otp_aead, on)
    ∷ (CommandCode.sign_attestation_certificate, on)
    ∷ (CommandCode.put_otp_aead, on)
    ∷ (CommandCode.generate_otp_aead, on)
    ∷ (CommandCode.wrap_data, on)
    ∷ (CommandCode.unwrap_data, on)
    ∷ (CommandCode.sign_eddsa, on)
    ∷ (CommandCode.blink_device, on)
    ∷ []

-- `insert` of one setting, and of a list of them in order.
unfoldable pub put : CommandCode → AuditOption → CommandAuditOptions → CommandAuditOptions
unfolding insert CommandCodes.to_u8
put command_type audit_option options =
    insert (CommandCodes.to_u8 command_type) audit_option options

put_all : List (CommandCode × AuditOption) → CommandAuditOptions → CommandAuditOptions
put_all [] options = options
put_all ((command_type, audit_option) ∷ rest) options =
    put_all rest (put command_type audit_option options)

unfoldable pub default_audit_options : CommandAuditOptions
unfolding put_all default_command_audit_options
default_audit_options = put_all default_command_audit_options []

-- `serialize`: two bytes for each setting, in the order of the codes.
unfoldable pub serialize : CommandAuditOptions → List ℕ
unfolding AuditOptions.to_u8
serialize [] = []
serialize ((code, audit_option) ∷ options) =
    code ∷ AuditOptions.to_u8 audit_option ∷ serialize options

is_some : {A : Type 0} → Option A → Bool
is_some none = false
is_some (some a) = true

unfoldable pub is_none : {A : Type 0} → Option A → Bool
is_none none = true
is_none (some a) = false

module _ (K : Keys) where
  -- `State::new`
  unfoldable pub new : State K
  unfolding default_audit_options default_objects
  new = record {
    command_audit_options = default_audit_options;
    force_audit = off;
    fips = off;
    sessions = [];
    objects = default_objects K;
  }

  -- `reset`: the two options of the device stay.
  unfoldable pub reset : State K → State K
  unfolding default_audit_options default_objects
  reset s = record s {
    command_audit_options = default_audit_options;
    sessions = [];
    objects = default_objects K;
  }

  -- A session's number is one above the largest, or 0.
  unfoldable pub next_session_id : Option SessionId → Hsm K SessionId
  unfolding Id.from_u8 Id.succ
  next_session_id none = lift (unwrap (Id.from_u8 0))
  next_session_id (some id) = lift (unwrap (Id.succ id))

  unfoldable pub session_found : Option HsmSession → Hsm K HsmSession
  session_found none = fail request_error
  session_found (some session) = pure session

  unfoldable pub get_session : SessionId → Hsm K HsmSession
  unfolding session_found
  get_session id = do s ← get; session_found (lookup id s.sessions)

  -- `get_session(..).unwrap()`
  unfoldable pub or_panic : {A : Type 0} → Hsm K A → Hsm K A
  or_panic m s = (unwrap (m s).0, (m s).1)

  unfoldable pub create_session : Crypto → ℕ → List ℕ → List ℕ → Hsm K HsmSession
  unfolding is_none new_session or_panic
  create_session c authentication_key_id host_challenge card_challenge = do
    s ← get
    session_id ← next_session_id (max_key s.sessions)
    authentication_key_obj ←
        lift (expect (get_object K authentication_key_id ObjectType.authentication_key s.objects))
    key ← lift (expect (Payload.as_authentication_key K authentication_key_obj.payload))
    channel ← lift (Channel.new c session_id key host_challenge card_challenge)
    modify (λ t. record t {
      sessions = insert session_id (new_session session_id card_challenge channel) t.sessions;
    })
    assert (is_none (lookup session_id s.sessions))
    or_panic (get_session session_id)

  -- `close_session`: `assert!(self.sessions.remove(&id).is_some())`
  unfoldable pub close_session : SessionId → Hsm K Unit
  unfolding is_some
  close_session id = do
    s ← get
    modify (λ t. record t { sessions = remove id t.sessions })
    assert (is_some (lookup id s.sessions))

  -- What an operation of a channel leaves behind in its session.
  unfoldable pub kept :
      {A : Type 0}
      → SessionId
      → HsmSession
      → Result SessionErrorKind A × SecureChannel
      → Hsm K (Result SessionErrorKind A)
  kept id session (r, channel) = do
    modify
        (λ t. record t { sessions = insert id (record session { channel = channel }) t.sessions })
    pure r

  -- An operation on the channel of a session, whose result is unwrapped.
  unfoldable pub on_channel : {A : Type 0} → SessionId → Channels A → Hsm K A
  unfolding kept
  on_channel id m = do
    session ← get_session id
    r ← kept id session (m session.channel)
    lift (unwrap r)

  -- An operation on the objects, with what it left behind.
  unfoldable pub on_objects : {A : Type 0} → OnObjects K A → Hsm K (Result HsmErrorKind A)
  on_objects m s = (ok (m s.objects).0, record s { objects = (m s.objects).1 })
