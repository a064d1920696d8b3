-- ===== src/Session/SecureChannel/Sealed.antt =====
-- What one end of an authenticated channel sends, in closed form, and what the other end makes of
-- it (src/session/securechannel.rs).
use yubihsm_rs.Base.{
  ℕ, ◌+◌, ◌≤◌, ◌<◌, ◌≡◌, refl, ap, some, List, length, ok, arith, leb, Bool, ==_refl,
}
use yubihsm_rs.Command.Code as CommandCodes
use yubihsm_rs.Command.Code.{CommandCode}
use yubihsm_rs.Command.Message as Command
use yubihsm_rs.Command.Message.{CommandMessage}
use yubihsm_rs.Command.Message.RoundTrip as CommandFrames
use yubihsm_rs.Session.Error.{SessionErrorKind}
use yubihsm_rs.Session.Mac
use yubihsm_rs.Session.SecureChannel.Crypto.{Crypto, CryptoLaws}
use yubihsm_rs.Session.SecureChannel.Channel.{
  SecureChannel, authenticated, level_eq, mac_text, compute_icv, max_commands_per_session,
}
use yubihsm_rs.Session.SecureChannel.Host.{checked, deciphered, encrypt_command, command_with_mac}
use yubihsm_rs.Session.SecureChannel.Card.{verify_command_mac, decrypt_command}

command_new_with_mac_ok :
    (code : CommandCode) (id : ℕ) (bytes tag : List ℕ)
    → length bytes ≤ Command.max_msg_size
    → length tag ≡ 16
    → Command.new_with_mac code id bytes tag
      ≡ ok (record {
        command_type = code;
        session_id = some id;
        data_bytes = bytes;
        mac = some (Mac.truncate tag);
      })
unfolding Command.new_with_mac
command_new_with_mac_ok code id bytes tag h k =
    ground (arith, Mac.from_tag_sixteen {E = SessionErrorKind} tag k)

command_len :
    (code : CommandCode) (id : ℕ) (bytes mac : List ℕ)
    → Command.len
        (record { command_type = code; session_id = some id; data_bytes = bytes; mac = some mac })
      ≡ 1 + length bytes + 8
unfolding Command.len
command_len code id bytes mac = omega arith

pub level_ok :
    (s : SecureChannel)
    → s.security_level ≡ authenticated
    → level_eq s.security_level authenticated ≡ Bool.true
level_ok s h = ap (λ l. level_eq l authenticated) h

module _ (c : Crypto) where
  -- A text under the channel's encryption in the state `s`.
  abbrev pub sealed : SecureChannel → List ℕ → List ℕ
  sealed s text = c.cbc_encrypt s.enc_key (compute_icv c s.enc_key s.counter) text

  -- The MAC of a command in the state `s`.
  abbrev pub command_tag : SecureChannel → CommandCode → List ℕ → List ℕ
  command_tag s code bytes =
      c.cmac s.mac_key
        (mac_text s.mac_chaining_value (CommandCodes.to_u8 code) (1 + length bytes + 8) s.id bytes)

  abbrev pub chained : SecureChannel → CommandCode → List ℕ → SecureChannel
  chained s code bytes = record s { mac_chaining_value = command_tag s code bytes }

  abbrev pub signed : SecureChannel → CommandCode → List ℕ → CommandMessage
  signed s code bytes = record {
    command_type = code;
    session_id = some s.id;
    data_bytes = bytes;
    mac = some (Mac.truncate (command_tag s code bytes));
  }

module _ (c : Crypto) (laws : CryptoLaws c) where
  pub command_with_mac_ok :
      (s : SecureChannel) (code : CommandCode) (bytes : List ℕ)
      → s.counter < max_commands_per_session
      → length bytes ≤ Command.max_msg_size
      → command_with_mac c code bytes s ≡ (ok (signed c s code bytes), chained c s code bytes)
  unfolding command_with_mac
  command_with_mac_ok s code bytes h k = rw (
    below,
    command_new_with_mac_ok code s.id bytes (command_tag c s code bytes) k (laws.length-cmac _ _),
  )
    where
      below : leb max_commands_per_session s.counter ≡ Bool.false
      below = ground arith

  pub verify_command_mac_ok :
      (s : SecureChannel) (code : CommandCode) (bytes : List ℕ)
      → verify_command_mac c (signed c s code bytes) s ≡ (ok tt, chained c s code bytes)
  unfolding verify_command_mac
  verify_command_mac_ok s code bytes = rw (==_refl s.id) (
      rw (command_len code s.id bytes (Mac.truncate (command_tag c s code bytes))) (
        rw (Mac.verify_own (command_tag c s code bytes) (laws.length-cmac _ _))
          (unfold checked in refl)))

  pub encrypt_command_ok :
      (s : SecureChannel) (m : CommandMessage)
      → s.security_level ≡ authenticated
      → s.counter < max_commands_per_session
      → length (sealed c s (Command.serialize m)) ≤ Command.max_msg_size
      → encrypt_command c m s ≡ (
        ok (signed c s CommandCode.session_message (sealed c s (Command.serialize m))),
        chained c s CommandCode.session_message (sealed c s (Command.serialize m)),
      )
  unfolding encrypt_command
  encrypt_command_ok s m h k l =
      rw (level_ok s h) (command_with_mac_ok s CommandCode.session_message _ k l)

  pub decrypt_command_ok :
      (s : SecureChannel) (m : CommandMessage)
      → s.security_level ≡ authenticated
      → CommandFrames.IsWellFormed m
      → decrypt_command c
          (signed c s CommandCode.session_message (sealed c s (Command.serialize m)))
          s
        ≡ (
          ok (record m { session_id = some s.id }),
          chained c s CommandCode.session_message (sealed c s (Command.serialize m)),
        )
  unfolding decrypt_command
  decrypt_command_ok s m h w = rw (level_ok s h) (
      rw (verify_command_mac_ok s CommandCode.session_message (sealed c s (Command.serialize m))) (
        rw (laws.cbc_decrypt-cbc_encrypt _ _ _)
          (unfold deciphered in rw (CommandFrames.command_parse-serialize m w))))
