-- ===== src/Session/SecureChannel/Rejected.antt =====
-- When a channel refuses: bad MACs, wrong numbers, padding, the limit of commands
-- (src/session/securechannel.rs).
use yubihsm_rs.Base.{
  ℕ, ◌+◌, ◌≤◌, ◌<◌, ◌≡◌, ◌≢◌, ◌^◌, ◌↔◌, refl, ap, sym, ◌∙◌, ==_iff, Option, none, some, List, ◌∷◌,
  ◌++◌, replicate, length, ok, err, panic, Result, arith, true, false, leb, ◌==◌, ==_refl, bytes_eq,
  bytes_eq_refl, bytes_eq→eq, Bool-cases, inl, inr,
}
use mathlib.Core.Path.{subst}
use yubihsm_rs.Base.Bytes.{u16_bytes}
use yubihsm_rs.Command.Message.{CommandMessage}
use yubihsm_rs.Response.Code as ResponseCodes
use yubihsm_rs.Response.Code.{ResponseCode}
use yubihsm_rs.Response.Message.{ResponseMessage}
use yubihsm_rs.Session.Error.{
  SessionErrorKind, command_limit_exceeded, protocol_error, mismatch_error, verify_failed,
}
use yubihsm_rs.Session.Mac
use yubihsm_rs.Session.SecureChannel.Crypto.{Crypto, CryptoLaws}
use yubihsm_rs.Session.SecureChannel.Channel.{
  SecureChannel, authenticated, terminated, terminate, mac_text, max_commands_per_session,
}
use yubihsm_rs.Session.SecureChannel.Host.{
  command_with_mac, encrypt_command, verify_response_mac, decrypt_response, checked, numbered,
}
use yubihsm_rs.Session.SecureChannel.Sealed.{level_ok}
use yubihsm_rs.Session.SecureChannel.Answered.{counted, increment_counter_ok, response_len}

-- A MAC that is compared with another tag's first bytes fails.
verify_other :
    (mac tag : List ℕ)
    → length tag ≡ 16
    → mac ≢ Mac.truncate tag
    → Mac.verify mac tag ≡ err verify_failed
unfolding Mac.verify
verify_other mac tag k differ =
    rw (Mac.from_tag_sixteen {E = SessionErrorKind} tag k)
      (elim (Bool-cases (bytes_eq mac (Mac.truncate tag))) [
        | inl e ↦ absurd (differ (bytes_eq→eq _ _ e))
        | inr e ↦ rw e
      ])

-- A channel that is terminated, with zeros for its three keys.
abbrev pub erased : SecureChannel → SecureChannel
erased s = record s {
  security_level = terminated;
  enc_key = replicate 16 0;
  mac_key = replicate 16 0;
  rmac_key = replicate 16 0;
}

abbrev pub framed : ℕ → ResponseCode → List ℕ → List ℕ → ResponseMessage
framed id code bytes mac = record {
  code = code;
  session_id = some id;
  data_bytes = bytes;
  mac = some mac;
}

module _ (c : Crypto) where
  -- The bytes that an answer's MAC has to be: of the chaining value, the code, the length in two
  -- bytes, the session's number and the data.
  abbrev pub rmac_of : SecureChannel → ResponseCode → List ℕ → List ℕ
  rmac_of s code bytes = Mac.truncate (
      c.cmac s.rmac_key (
        s.mac_chaining_value
        ++ (ResponseCodes.to_u8 code ∷ (u16_bytes (1 + length bytes + 8) ++ (s.id ∷ bytes)))))

  abbrev tag_of : SecureChannel → ResponseCode → List ℕ → List ℕ
  tag_of s code bytes =
      c.cmac s.rmac_key
        (mac_text s.mac_chaining_value (ResponseCodes.to_u8 code) (1 + length bytes + 8) s.id bytes)

  -- Past the limit of commands no command leaves the channel: the error is
  -- `command_limit_exceeded` and the keys are erased.
  pub encrypt_command-limit :
      (s : SecureChannel) (m : CommandMessage)
      → s.security_level ≡ authenticated
      → max_commands_per_session ≤ s.counter
      → encrypt_command c m s ≡ (err command_limit_exceeded, terminate s)
  unfolding encrypt_command command_with_mac
  encrypt_command-limit s m level over = rw (level_ok s level) (rw reached)
    where
      reached : leb max_commands_per_session s.counter ≡ true
      reached = ground arith

-- A channel that was terminated takes no more commands: the assertion on its level fails.
encrypt_command-erased :
    (c : Crypto) (s : SecureChannel) (m : CommandMessage)
    → encrypt_command c m (erased s) ≡ (panic, erased s)
unfolding encrypt_command
encrypt_command-erased c s m = refl

bytes_eq-false→ne : (xs ys : List ℕ) → bytes_eq xs ys ≡ false → xs ≢ ys
bytes_eq-false→ne xs ys e same = cc (bytes_eq_refl xs, same, e)

ok-ne-err : {u : Unit {0}} {e : SessionErrorKind} → Result.ok u ≢ err e
ok-ne-err h = cc

module _ (c : Crypto) (laws : CryptoLaws c) where
  verify_response_mac-forged :
      (s : SecureChannel) (code : ResponseCode) (bytes mac : List ℕ)
      → s.security_level ≡ authenticated
      → mac ≢ rmac_of c s code bytes
      → verify_response_mac c (framed s.id code bytes mac) s ≡ (err verify_failed, erased s)
  unfolding verify_response_mac numbered mac_text terminate
  verify_response_mac-forged s code bytes mac level differ = rw (level_ok s level) (
      rw (==_refl s.id) (
        rw (response_len code s.id bytes mac) (
          rw (verify_other mac (tag_of c s code bytes) (laws.length-cmac _ _) differ)
            (unfold checked in refl))))

  -- On an authenticated channel, an answer with the session's number whose MAC is not the MAC of
  -- its code and data under the session's key and chaining value is refused with `verify_failed`.
  -- The channel is terminated and has zeros for its three keys, and the next command panics.
  pub decrypt_response-forged :
      (s : SecureChannel) (code : ResponseCode) (bytes mac : List ℕ) (next : CommandMessage)
      → s.security_level ≡ authenticated
      → mac ≢ rmac_of c s code bytes
      → (decrypt_response c (framed s.id code bytes mac) s ≡ (err verify_failed, erased s))
        × (encrypt_command c next (erased s) ≡ (panic, erased s))
  unfolding decrypt_response
  decrypt_response-forged s code bytes mac next level differ = (
    rw (level_ok s level) (rw (verify_response_mac-forged s code bytes mac level differ)),
    encrypt_command-erased c s next,
  )

  -- Why an answer with a session number that is not the channel's is refused.
  abbrev refusal_of : Option ℕ → SessionErrorKind
  refusal_of none = protocol_error
  refusal_of (some id) = mismatch_error

  verify_response_mac-misaddressed :
      (s : SecureChannel) (r : ResponseMessage)
      → s.security_level ≡ authenticated
      → r.session_id ≢ some s.id
      → verify_response_mac c r s ≡ (err (refusal_of r.session_id), erased s)
  verify_response_mac-misaddressed s r level differ = by_id r.session_id refl
    where
      by_id :
          (id : Option ℕ)
          → r.session_id ≡ id
          → verify_response_mac c r s ≡ (err (refusal_of r.session_id), erased s)
      by_id none given =
          unfold verify_response_mac numbered terminate in rw (level_ok s level) (rw given)
      by_id (some id) given =
          unfold verify_response_mac numbered terminate in
          rw (level_ok s level) (rw given (rw other))
        where
          other : (s.id == id) ≡ false
          other = elim (Bool-cases (s.id == id)) [
            | inl e ↦ absurd (differ (given ∙ ap some (sym ((==_iff s.id id).0 e))))
            | inr e ↦ e
          ]

  -- On an authenticated channel, an answer without a session number is refused with
  -- `protocol_error`, and one with another session's with `mismatch_error`. The channel is
  -- terminated and has zeros for its three keys.
  pub decrypt_response-misaddressed :
      (s : SecureChannel) (r : ResponseMessage)
      → s.security_level ≡ authenticated
      → r.session_id ≢ some s.id
      → decrypt_response c r s
        ≡ (err (elim r.session_id [ none ↦ protocol_error | some _ ↦ mismatch_error ]), erased s)
  unfolding decrypt_response
  decrypt_response-misaddressed s r level differ =
      rw (level_ok s level) (rw (verify_response_mac-misaddressed s r level differ))

  verify_response_mac-own :
      (s : SecureChannel) (code : ResponseCode) (bytes : List ℕ)
      → s.security_level ≡ authenticated
      → s.counter + 1 < 2 ^ 32
      → verify_response_mac c (framed s.id code bytes (rmac_of c s code bytes)) s
        ≡ (ok tt, counted s)
  unfolding verify_response_mac numbered mac_text terminate
  verify_response_mac-own s code bytes level below = rw (level_ok s level) (
      rw (==_refl s.id) (
        rw (response_len code s.id bytes (rmac_of c s code bytes)) (
          rw (Mac.verify_own (tag_of c s code bytes) (laws.length-cmac _ _))
            (unfold checked in increment_counter_ok s below))))

  -- On an authenticated channel whose counter can grow, an answer with the session's number
  -- passes, and is counted, exactly if its MAC is the MAC of its code and data under the session's
  -- key and chaining value.
  pub verify_response_mac_iff :
      (s : SecureChannel) (code : ResponseCode) (bytes mac : List ℕ)
      → s.security_level ≡ authenticated
      → s.counter + 1 < 2 ^ 32
      → (verify_response_mac c (framed s.id code bytes mac) s ≡ (ok tt, counted s))
        ↔ (mac ≡ rmac_of c s code bytes)
  verify_response_mac_iff s code bytes mac level below = (
    λ passed. elim (Bool-cases (bytes_eq mac (rmac_of c s code bytes))) [
      | inl e ↦ bytes_eq→eq _ _ e
      | inr e ↦
          let differ = bytes_eq-false→ne mac (rmac_of c s code bytes) e in
          absurd (
            ok-ne-err (
              sym (ap (λ p. p.0) passed)
              ∙ ap (λ p. p.0) (verify_response_mac-forged s code bytes mac level differ)))
    ],
    λ same.
        subst (λ m. verify_response_mac c (framed s.id code bytes m) s ≡ (ok tt, counted s))
          (sym same) (verify_response_mac-own s code bytes level below),
  )
