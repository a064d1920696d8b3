-- ===== src/Session/SecureChannel/Opening.antt =====
-- A channel that is opened by both ends (src/session/securechannel.rs, with the order of the
-- calls of src/session.rs, src/mockhsm/state.rs and src/mockhsm/command.rs).
use yubihsm_rs.Base.{
  ℕ, ◌+◌, ◌≤◌, ◌≡◌, refl, List, [], length, ok, arith, All, Bool, true, ◌==◌, bytes_eq_refl, not,
  ensure,
}
use mathlib.Core.List.{map}
use yubihsm_rs.Base.Actions.{lift, ◌>>=◌, ◌>>◌}
use yubihsm_rs.Command.Code.{CommandCode}
use yubihsm_rs.Command.Message as Command
use yubihsm_rs.Command.Message.{CommandMessage}
use yubihsm_rs.Command.Message.RoundTrip as CommandFrames
use yubihsm_rs.Response.Code as ResponseCodes
use yubihsm_rs.Response.Message as Response
use yubihsm_rs.Response.Message.{ResponseMessage}
use yubihsm_rs.Response.Message.Parts as ResponseParts
use yubihsm_rs.Response.Message.RoundTrip as ResponseFrames
use yubihsm_rs.Session.Error.{SessionErrorKind, response_error}
use yubihsm_rs.Session.Mac
use yubihsm_rs.Session.SecureChannel.Crypto.{Crypto, CryptoLaws}
use yubihsm_rs.Session.SecureChannel.Kdf.{from_slice, cryptogram_size}
use yubihsm_rs.Session.SecureChannel.Channel.{
  SecureChannel, authenticated, max_commands_per_session,
}
use yubihsm_rs.Session.SecureChannel.Host.{authenticate_session, finish_authenticate_session}
use yubihsm_rs.Session.SecureChannel.Card.{verify_authenticate_session}
use yubihsm_rs.Session.SecureChannel.Sealed.{
  signed, chained, command_with_mac_ok, verify_command_mac_ok,
}
use yubihsm_rs.Session.SecureChannel.Exchange.{
  Turn, Fits, Meetings, both, labelled, on_host, on_card, on_host_eq, on_card_eq, converse,
  converse-delivers,
}
use yubihsm_rs.Session.SecureChannel.Handshake.{
  open_ends, fresh, derived, new_ok, card_cryptogram_ok, host_cryptogram_ok, length-derived,
  verify_card_iff,
}

module _ (c : Crypto) where
  -- `Session::authenticate`, with the card's part of it.
  unfoldable pub authenticate : Meetings Unit
  authenticate = do
    command ← on_host (authenticate_session c)
    cmd_message ← lift (Command.parse (Command.serialize command))
    answer ← on_card (verify_authenticate_session c cmd_message)
    response ← lift (Response.parse (Response.serialize answer))
    lift (ensure (not (Response.is_err response)) response_error)
    on_host (finish_authenticate_session response)

module _ (c : Crypto) (laws : CryptoLaws c) (id : ℕ) (key host_challenge card_challenge : List ℕ)
    (named : id ≤ 16) (size : length key ≡ 32) where
  abbrev pub start : SecureChannel
  start = fresh c id key host_challenge card_challenge

  abbrev pub proof_bytes : List ℕ
  proof_bytes = derived c start.mac_key 1 start.context 8

  abbrev pub after : SecureChannel
  after = record (chained c start CommandCode.authenticate_session proof_bytes) {
    security_level = authenticated;
    counter = 1;
  }

  keyed : length start.mac_key ≡ 16
  keyed = length-derived c laws _ 6 start.context 16 (omega arith)

  length-proof_bytes : length proof_bytes ≡ 8
  length-proof_bytes = length-derived c laws _ 1 start.context 8 (omega arith)

  open_ends_ok : open_ends c id key key host_challenge card_challenge ≡ ok (both start)
  unfolding open_ends
  open_ends_ok =
      rw (new_ok c laws {E = SessionErrorKind} id key host_challenge card_challenge size) (
        rw (card_cryptogram_ok c laws {E = SessionErrorKind} start keyed) (
          rw (
            (verify_card_iff c laws start start (derived c start.mac_key 0 start.context 8) keyed).1
              (card_cryptogram_ok c laws {E = SessionErrorKind} start keyed, refl))))

  pub authenticate_session_ok : authenticate_session c start ≡ (
    ok (signed c start CommandCode.authenticate_session proof_bytes),
    chained c start CommandCode.authenticate_session proof_bytes,
  )
  unfolding authenticate_session
  authenticate_session_ok = rw (host_cryptogram_ok c laws {E = SessionErrorKind} start keyed) (
      command_with_mac_ok c laws start CommandCode.authenticate_session proof_bytes (omega arith)
        (omega (arith, length-proof_bytes)))

  pub verify_authenticate_session_ok :
      verify_authenticate_session c
        (signed c start CommandCode.authenticate_session proof_bytes)
        start
      ≡ (ok (Response.success CommandCode.authenticate_session []), after)
  unfolding verify_authenticate_session
  verify_authenticate_session_ok = rw eight (
      rw (host_cryptogram_ok c laws {E = SessionErrorKind} start keyed) (
        rw whole (
          rw (bytes_eq_refl proof_bytes) (
            rw (verify_command_mac_ok c laws start CommandCode.authenticate_session proof_bytes)))))
    where
      eight : (length proof_bytes == cryptogram_size) ≡ true
      eight = ground (arith, length-proof_bytes)

      whole : from_slice {E = SessionErrorKind} proof_bytes ≡ ok proof_bytes
      whole = unfold from_slice in ground (arith, length-proof_bytes)

  pub frame :
      CommandFrames.IsWellFormed (signed c start CommandCode.authenticate_session proof_bytes)
  frame = record {
    parts = (named, Mac.length-truncate _ (laws.length-cmac _ _));
    short = unfold Command.len in omega (arith, length-proof_bytes);
  }

  pub answer_frame :
      ResponseParts.IsWellFormed (Response.success CommandCode.authenticate_session [])
  answer_frame =
      unfold Response.success in
      record {
        own_byte = λ e. cc;
        numbered = unfold Response.has_session_id in tt;
        signed = unfold Response.has_rmac in tt;
        short = unfold Response.len in omega arith;
      }

  pub finish_ok :
      finish_authenticate_session
        (Response.success CommandCode.authenticate_session [])
        (chained c start CommandCode.authenticate_session proof_bytes)
      ≡ (ok tt, after)
  finish_ok = unfold finish_authenticate_session Response.success in refl

  authenticate_ok : authenticate c (both start) ≡ (ok tt, both after)
  unfolding authenticate
  authenticate_ok = rw (on_host_eq (authenticate_session c) start start authenticate_session_ok) (
      rw (CommandFrames.command_parse-serialize _ frame) (
        rw
          (on_card_eq (verify_authenticate_session c _)
            (chained c start CommandCode.authenticate_session proof_bytes) start
            verify_authenticate_session_ok)
          (rw (ResponseFrames.response_parse-serialize _ answer_frame) (
            rw success (
              rw (
                on_host_eq (finish_authenticate_session _)
                  (chained c start CommandCode.authenticate_session proof_bytes) after
                  finish_ok))))))
    where
      success : Response.is_err (Response.success CommandCode.authenticate_session []) ≡ Bool.false
      success = unfold Response.is_err Response.success ResponseCodes.is_success in refl

-- With one authentication key of 32 bytes at both ends, a session number of at most 16 and any
-- challenges, the two ends of a new channel derive the same keys, the host accepts the card's
-- cryptogram, and `authenticate` ends with both ends in one authenticated state with the
-- counter 1. From there a list of turns that fit frames, as many as the limit of commands leaves,
-- is delivered: each end reads what the other sent, and the ends agree again, with the turns
-- counted.
pub open_ends-authenticate-converse :
    (c : Crypto) (laws : CryptoLaws c) (id : ℕ) (key host_challenge card_challenge : List ℕ)
    (turns : List Turn)
    → id ≤ 16
    → length key ≡ 32
    → 1 + length turns ≤ max_commands_per_session
    → All Fits turns
    → (ends opened closed : SecureChannel) × (open_ends c id key key host_challenge card_challenge
        ≡ ok (both ends))
      × (authenticate c (both ends) ≡ (ok tt, both opened))
      × (opened.security_level ≡ authenticated)
      × (opened.counter ≡ 1)
      × (opened.id ≡ id)
      × (converse c turns (both opened) ≡ (ok (map (labelled id) turns), both closed))
      × (closed.counter ≡ 1 + length turns)
open_ends-authenticate-converse c laws id key host_challenge card_challenge turns named size below
      fits =
    let opened = after c laws id key host_challenge card_challenge named size in
    let (closed, run, count, _, _, _) =
      converse-delivers c laws opened turns refl named below fits in
    (
      start c laws id key host_challenge card_challenge named size,
      opened,
      closed,
      open_ends_ok c laws id key host_challenge card_challenge named size,
      authenticate_ok c laws id key host_challenge card_challenge named size,
      refl,
      refl,
      refl,
      run,
      count,
    )
