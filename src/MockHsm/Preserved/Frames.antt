-- ===== src/MockHsm/Preserved/Frames.antt =====
-- Every frame leaves the simulated device in order (src/mockhsm/command.rs,
-- src/mockhsm/connection.rs).
use yubihsm_rs.Base.{ℕ, List, false, Result, ok, err, panic}
use yubihsm_rs.Base.Programs.{
  Keeps, keeps_rules, modify-Keeps, bind-Keeps, get-Keeps, lift-Keeps, if-Keeps, fail-Keeps,
  pure-Keeps,
}
use yubihsm_rs.Command.Code.{CommandCode}
use yubihsm_rs.Command.Message.{CommandMessage}
use yubihsm_rs.Response.Message.{ResponseMessage}
use yubihsm_rs.Session.SecureChannel.Crypto.{Crypto}
use yubihsm_rs.MockHsm.Commands.Signing.{Signers}
use yubihsm_rs.MockHsm.Connection as Connection
use yubihsm_rs.MockHsm.Connection.{Shared}
use yubihsm_rs.MockHsm.Error.{ConnectorErrorKind}
use yubihsm_rs.MockHsm.Keys.{Keys}
use yubihsm_rs.MockHsm.State as State
use yubihsm_rs.MockHsm.State.{State, Hsm}
use yubihsm_rs.MockHsm.Validity.{
  IsValid, on_objects-Keeps, options-Keeps, on_channel-Keeps, removed-Keeps, reset-IsValid,
  new-IsValid, create_session-Keeps, or_panic-Keeps,
}
use yubihsm_rs.MockHsm.Preserved.{Rules, success-Keeps}
use yubihsm_rs.MockHsm.Preserved.Handled.{handled-Keeps}

IsValid-rules : {K : Keys} → Rules K IsValid
IsValid-rules = record { objects = on_objects-Keeps; options = options-Keeps }

module _ {K : Keys} (S : Signers K) (c : Crypto) where
  close_session-Keeps :
      (random : ℕ → List ℕ) (id : ℕ) → Keeps IsValid (Connection.close_session K S c random id)
  unfolding Connection.close_session
  close_session-Keeps random id = search (keeps_rules, on_channel-Keeps, removed-Keeps)

  reset_device-Keeps :
      (random : ℕ → List ℕ) (id : ℕ) → Keeps IsValid (Connection.reset_device K S c random id)
  unfolding Connection.reset_device
  reset_device-Keeps random id =
      bind-Keeps _ _ (or_panic-Keeps _ (on_channel-Keeps _ _)) (λ response.
        bind-Keeps _ _ (modify-Keeps _ (λ s p. reset-IsValid s)) (λ _. search keeps_rules))

  respond-Keeps :
      (random : ℕ → List ℕ) (id : ℕ) (handler : Hsm K ResponseMessage)
      → Keeps IsValid handler
      → Keeps IsValid (Connection.respond K S c random id handler)
  unfolding Connection.respond
  respond-Keeps random id handler h =
      bind-Keeps _ _ h (λ response. bind-Keeps _ _ (on_channel-Keeps id _) (λ _. pure-Keeps _))

  routed-Keeps :
      (random : ℕ → List ℕ) (code : CommandCode) (id : ℕ) (bytes : List ℕ)
      → Keeps IsValid (Connection.routed K S c random code id bytes)
  unfolding Connection.routed
  routed-Keeps random CommandCode.close_session id bytes = close_session-Keeps random id
  routed-Keeps random CommandCode.reset_device id bytes = reset_device-Keeps random id
  routed-Keeps random code id bytes =
      respond-Keeps random id _ (handled-Keeps IsValid-rules S c random code bytes)

  session_message-Keeps :
      (random : ℕ → List ℕ) (m : CommandMessage)
      → Keeps IsValid (Connection.session_message K S c random m)
  unfolding Connection.session_message
  session_message-Keeps random m = search (keeps_rules, on_channel-Keeps, routed-Keeps)

  frame_create_session-Keeps :
      (random : ℕ → List ℕ) (m : CommandMessage)
      → Keeps IsValid (Connection.create_session K S c random m)
  unfolding Connection.create_session
  frame_create_session-Keeps random m =
      search (keeps_rules, success-Keeps, create_session-Keeps) depth 20

  authenticate_session-Keeps :
      (random : ℕ → List ℕ) (m : CommandMessage)
      → Keeps IsValid (Connection.authenticate_session K S c random m)
  unfolding Connection.authenticate_session
  authenticate_session-Keeps random m = search (keeps_rules, on_channel-Keeps)

  dispatched-Keeps :
      (random : ℕ → List ℕ) (code : CommandCode) (m : CommandMessage)
      → Keeps IsValid (Connection.dispatched K S c random code m)
  unfolding Connection.dispatched
  dispatched-Keeps random CommandCode.create_session m = frame_create_session-Keeps random m
  dispatched-Keeps random CommandCode.authenticate_session m = authenticate_session-Keeps random m
  dispatched-Keeps random CommandCode.session_message m = session_message-Keeps random m
  dispatched-Keeps random _ m = fail-Keeps _

  shared_IsValid :
      (r : Result ConnectorErrorKind (List ℕ) × State K)
      → IsValid r.1
      → IsValid ((Connection.released K r).1).state
  shared_IsValid (ok bytes, s) p = p
  shared_IsValid (err e, s) p = p
  shared_IsValid (panic, s) p = p

  -- Of the shared state, too.
  abbrev IsSharedValid : Shared K → Type 0
  IsSharedValid s = IsValid s.state

  under_lock-Keeps :
      (random : ℕ → List ℕ) (handler : Hsm K (List ℕ))
      → Keeps IsValid handler
      → Keeps IsSharedValid (Connection.under_lock K S c random handler)
  unfolding Connection.under_lock
  under_lock-Keeps random handler h = bind-Keeps _ _ get-Keeps (λ s.
      if-Keeps s.is_poisoned _ _ (fail-Keeps _)
        (record { kept = λ t p. shared_IsValid (handler t.state) (h.kept t.state p) }))

  send_message-Keeps :
      (random : ℕ → List ℕ) (frame : List ℕ)
      → Keeps IsSharedValid (Connection.send_message K S c random frame)
  unfolding Connection.send_message
  send_message-Keeps random frame =
      bind-Keeps _ _ (lift-Keeps _)
        (λ m. under_lock-Keeps random _ (dispatched-Keeps random m.command_type m))

-- The states that a new device can come to: any frames are sent to it, one after the other, and it
-- has any random bytes for each.
pub data IsReachable {K : Keys} (S : Signers K) (c : Crypto) : Shared K → Type 0 where
  start : IsReachable S c (record { state = State.new K; is_poisoned = false })
  sent :
      (random : ℕ → List ℕ) (frame : List ℕ) (s : Shared K)
      → IsReachable S c s
      → IsReachable S c (Connection.send_message K S c random frame s).1

-- In every state that the simulated device can come to, whatever frames it gets, the objects are in
-- the order of their handles, each under the handle of its own number and type, and the sessions
-- are in the order of their numbers, each under its own, which is at most 16.
pub reachable-IsValid :
    {K : Keys} (S : Signers K) (c : Crypto) (s : Shared K) → IsReachable S c s → IsValid s.state
reachable-IsValid S c _ start = new-IsValid
reachable-IsValid S c _ (sent random frame s r) =
    (send_message-Keeps S c random frame).kept s (reachable-IsValid S c s r)
