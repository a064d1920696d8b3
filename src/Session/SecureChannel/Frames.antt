-- ===== src/Session/SecureChannel/Frames.antt =====
-- The frames of an authenticated channel: what goes out fits a frame (src/session/securechannel.rs,
-- src/command/message.rs, src/response/message.rs).
use yubihsm_rs.Base.{ℕ, ◌≤◌, ◌<◌, List, length, arith}
use yubihsm_rs.Command.Code.{CommandCode}
use yubihsm_rs.Command.Message as Command
use yubihsm_rs.Command.Message.{CommandMessage}
use yubihsm_rs.Command.Message.RoundTrip as CommandFrames
use yubihsm_rs.Response.Message as Response
use yubihsm_rs.Response.Message.{ResponseMessage}
use yubihsm_rs.Response.Message.Parts as ResponseParts
use yubihsm_rs.Session.Mac
use yubihsm_rs.Session.SecureChannel.Crypto.{Crypto, CryptoLaws}
use yubihsm_rs.Session.SecureChannel.Channel.{SecureChannel, compute_icv}
use yubihsm_rs.Session.SecureChannel.Sealed.{sealed, signed, chained}
use yubihsm_rs.Session.SecureChannel.Answered.{answer}

module _ (c : Crypto) (laws : CryptoLaws c) where
  abbrev pub asked : SecureChannel → CommandMessage → SecureChannel
  asked s m = chained c s CommandCode.session_message (sealed c s (Command.serialize m))

  pub signed-IsWellFormed :
      (s : SecureChannel) (bytes : List ℕ)
      → s.id ≤ 16
      → length bytes ≤ 2048
      → CommandFrames.IsWellFormed (signed c s CommandCode.session_message bytes)
  signed-IsWellFormed s bytes h k = record {
    parts = (h, Mac.length-truncate _ (laws.length-cmac _ _));
    short = unfold Command.len in omega arith;
  }

  pub answer-IsWellFormed :
      (s : SecureChannel) (bytes : List ℕ)
      → s.id ≤ 16
      → length bytes ≤ 65520
      → ResponseParts.IsWellFormed (answer c s bytes)
  answer-IsWellFormed s bytes h k = record {
    own_byte = λ e. cc;
    numbered = unfold Response.has_session_id in h;
    signed = unfold Response.has_rmac in Mac.length-truncate _ (laws.length-cmac _ _);
    short = unfold Response.len in omega arith;
  }

  pub sealed_command-le :
      (s : SecureChannel) (m : CommandMessage)
      → length (Command.serialize m) < 2048
      → length (sealed c s (Command.serialize m)) ≤ 2048
  sealed_command-le s m short = omega (
    arith,
    laws.length-cbc_encrypt s.enc_key (compute_icv c s.enc_key s.counter) (Command.serialize m),
  )

  pub sealed_response-le :
      (s : SecureChannel) (r : ResponseMessage)
      → length (Response.serialize r) < 65520
      → length (sealed c s (Response.serialize r)) ≤ 65520
  sealed_response-le s r short = omega (
    arith,
    laws.length-cbc_encrypt s.enc_key (compute_icv c s.enc_key s.counter) (Response.serialize r),
  )
