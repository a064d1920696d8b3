-- ===== src/Session/SecureChannel/Created.antt =====
-- A channel that the host opens at a card (src/session/securechannel.rs, src/mockhsm/state.rs).
use yubihsm_rs.Base.{
  ℕ, ◌≡◌, ◌≢◌, ◌≤◌, ap, sym, ◌∙◌, Option, none, some, List, length, Result, ok, err, arith, leb,
  true, bytes_eq, Bool-cases, inl, inr, bytes_eq→eq, bytes_eq_refl, length-append, if◌then◌else◌,
}
use yubihsm_rs.Command.Code as CommandCodes
use yubihsm_rs.Command.Code.{CommandCode}
use yubihsm_rs.Command.Message as Command
use yubihsm_rs.Command.Message.{CommandMessage}
use yubihsm_rs.Response.Code as ResponseCodes
use yubihsm_rs.Response.Code.{ResponseCode}
use yubihsm_rs.Response.Message as Response
use yubihsm_rs.Response.Message.{ResponseMessage}
use yubihsm_rs.Response.Message.Parts as ResponseParts
use yubihsm_rs.Response.Message.RoundTrip as ResponseFrames
use yubihsm_rs.Session.Error.{SessionErrorKind, authentication_error}
use yubihsm_rs.Session.SecureChannel.Crypto.{Crypto, CryptoLaws}
use yubihsm_rs.Session.SecureChannel.Channel.{SecureChannel, card_cryptogram}
use yubihsm_rs.Session.SecureChannel.Handshake.{
  verify_card, fresh, derived, new_ok, card_cryptogram_ok, length-derived,
}
use yubihsm_rs.Session.SecureChannel.Create.{
  create_session_command, create_session_response, create_session_message, created, accept_card,
  received, open_channel, create_session,
}
use yubihsm_rs.Wire.{write}
use yubihsm_rs.Wire.Integers.{be_bytes, length-be_bytes}
use yubihsm_rs.Wire.RoundTrip.{deserialize-write}

abbrev pub request : ℕ → List ℕ → CommandMessage
request key_id host_challenge = record {
  command_type = CommandCode.create_session;
  session_id = none;
  data_bytes = write create_session_command (key_id, host_challenge);
  mac = none;
}

pub create_session_message_ok :
    {E : Type 0} (key_id : ℕ) (host_challenge : List ℕ)
    → length host_challenge ≡ 8
    → create_session_message {E = E} key_id host_challenge ≡ ok (request key_id host_challenge)
unfolding create_session_message Command.create
create_session_message_ok key_id host_challenge h = rw short
  where
    short : leb (length (write create_session_command (key_id, host_challenge))) 2048 ≡ true
    short =
        unfold write in
        ground (arith, length-append (be_bytes 2 key_id) host_challenge, length-be_bytes 2 key_id)

-- The card's answer with a number, a challenge and a cryptogram.
abbrev pub invitation : ℕ → List ℕ → List ℕ → ResponseMessage
invitation id card_challenge cryptogram = record {
  code = ResponseCode.success CommandCode.create_session;
  session_id = some id;
  data_bytes = write create_session_response (card_challenge, cryptogram);
  mac = none;
}

invitation-IsWellFormed :
    (id : ℕ) (card_challenge cryptogram : List ℕ)
    → id ≤ 16
    → length card_challenge ≡ 8
    → length cryptogram ≡ 8
    → ResponseParts.IsWellFormed (invitation id card_challenge cryptogram)
invitation-IsWellFormed id card_challenge cryptogram named h k = record {
  own_byte = λ e. cc;
  numbered = unfold Response.has_session_id in named;
  signed = unfold Response.has_rmac in tt;
  short = unfold Response.len write in omega (arith, length-append card_challenge cryptogram);
}

created_ok :
    (id : ℕ) (card_challenge cryptogram : List ℕ)
    → length card_challenge ≡ 8
    → length cryptogram ≡ 8
    → created (invitation id card_challenge cryptogram) ≡ ok (id, (card_challenge, cryptogram))
unfolding created Response.is_err ResponseCodes.is_success Response.command CommandCodes.to_u8
created_ok id card_challenge cryptogram h k =
    rw (deserialize-write create_session_response (card_challenge, cryptogram) (tt, tt) (h, k))

ok_pair :
    {A B : Type 0} {a a' : A} {b b' : B}
    → ◌≡◌ {A = Result SessionErrorKind (A × B)} (ok (a, b)) (ok (a', b'))
    → (a ≡ a') × (b ≡ b')
ok_pair e = (cc, cc)

module _ (c : Crypto) (laws : CryptoLaws c) (id : ℕ) (named : id ≤ 16)
    (host_challenge card_challenge : List ℕ) (eight : length card_challenge ≡ 8) where
  cryptogram_of : List ℕ → List ℕ
  cryptogram_of key =
      derived c (fresh c id key host_challenge card_challenge).mac_key 0
        (fresh c id key host_challenge card_challenge).context 8

  keyed : (key : List ℕ) → length (fresh c id key host_challenge card_challenge).mac_key ≡ 16
  keyed key =
      length-derived c laws _ 6 (fresh c id key host_challenge card_challenge).context 16
        (omega arith)

  create_session_ok :
      (key : List ℕ)
      → length key ≡ 32
      → create_session c id key host_challenge card_challenge
        ≡ ok (
          fresh c id key host_challenge card_challenge,
          invitation id card_challenge (cryptogram_of key),
        )
  unfolding create_session cryptogram_of Response.success
  create_session_ok key size =
      rw (new_ok c laws {E = SessionErrorKind} id key host_challenge card_challenge size) (
        rw (
          card_cryptogram_ok c laws {E = SessionErrorKind}
            (fresh c id key host_challenge card_challenge) (keyed key)))

  accept_card_ok :
      (key cryptogram : List ℕ)
      → length key ≡ 32
      → length cryptogram ≡ 8
      → accept_card c key host_challenge
          (Response.serialize (invitation id card_challenge cryptogram))
        ≡ (if bytes_eq (cryptogram_of key) cryptogram
            then ok (fresh c id key host_challenge card_challenge)
            else err authentication_error)
  unfolding accept_card verify_card cryptogram_of
  accept_card_ok key cryptogram size k =
      rw
        (ResponseFrames.response_parse-serialize _
          (invitation-IsWellFormed id card_challenge cryptogram named eight k))
        (rw (created_ok id card_challenge cryptogram eight k) (
          rw (new_ok c laws {E = SessionErrorKind} id key host_challenge card_challenge size) (
            rw (
              card_cryptogram_ok c laws {E = SessionErrorKind}
                (fresh c id key host_challenge card_challenge) (keyed key)))))

  module _ {W : Type 0} (send : List ℕ → W → Option (List ℕ) × W) (w w' : W) (key_id : ℕ)
      (asked : length host_challenge ≡ 8) where
    open_channel_ok :
        (key cryptogram : List ℕ)
        → length key ≡ 32
        → length cryptogram ≡ 8
        → send (Command.serialize (request key_id host_challenge)) w
          ≡ (some (Response.serialize (invitation id card_challenge cryptogram)), w')
        → open_channel send c key_id key host_challenge w ≡ (
          if bytes_eq (cryptogram_of key) cryptogram
              then ok (fresh c id key host_challenge card_challenge)
              else err authentication_error,
          w',
        )
    unfolding open_channel received
    open_channel_ok key cryptogram size k sent =
        rw (create_session_message_ok {E = SessionErrorKind} key_id host_challenge asked)
          (rw sent (rw (accept_card_ok key cryptogram size k)))

    length-cryptogram_of : (key : List ℕ) → length (cryptogram_of key) ≡ 8
    length-cryptogram_of key =
        unfold cryptogram_of in
        length-derived c laws _ 0 (fresh c id key host_challenge card_challenge).context 8
          (omega arith)

-- A host opens a channel at a card that made a session for it with the same authentication key of
-- 32 bytes, with challenges of eight bytes and a session number of at most 16: if the connector
-- hands the host's frame over and the card's answer back, then `open` returns a channel in the
-- very state of the card's.
pub open_channel-create_session :
    {W : Type 0} (send : List ℕ → W → Option (List ℕ) × W) (c : Crypto) (laws : CryptoLaws c)
    (w w' : W) (key_id id : ℕ) (key host_challenge card_challenge : List ℕ)
    (channel : SecureChannel) (answer : ResponseMessage)
    → id ≤ 16
    → length key ≡ 32
    → length host_challenge ≡ 8
    → length card_challenge ≡ 8
    → create_session c id key host_challenge card_challenge ≡ ok (channel, answer)
    → send (Command.serialize (request key_id host_challenge)) w
      ≡ (some (Response.serialize answer), w')
    → open_channel send c key_id key host_challenge w ≡ (ok channel, w')
open_channel-create_session send c laws w w' key_id id key host_challenge card_challenge channel
      answer named size asked eight made sent =
    let (same_channel, same_answer) = ok_pair (
      sym (create_session_ok c laws id named host_challenge card_challenge eight key size)
      ∙ made) in
    open_channel_ok c laws id named host_challenge card_challenge eight send w w' key_id asked key
      (cryptogram_of c laws id named host_challenge card_challenge eight key) size
      (length-cryptogram_of c laws id named host_challenge card_challenge eight send w w' key_id
        asked key)
      (sent ∙ ap (λ a. (some (Response.serialize a), w')) (sym same_answer))
    ∙ rw (bytes_eq_refl (cryptogram_of c laws id named host_challenge card_challenge eight key))
        (ap (λ s. (ok s, w')) same_channel)

-- If the host's authentication key gives another cryptogram than the card's key does, for the
-- same challenges and number, then `open` fails with `authentication_error`.
pub open_channel-other_key :
    {W : Type 0} (send : List ℕ → W → Option (List ℕ) × W) (c : Crypto) (laws : CryptoLaws c)
    (w w' : W) (key_id id : ℕ) (host_key card_key host_challenge card_challenge : List ℕ)
    (channel : SecureChannel) (answer : ResponseMessage)
    → id ≤ 16
    → length host_key ≡ 32
    → length card_key ≡ 32
    → length host_challenge ≡ 8
    → length card_challenge ≡ 8
    → create_session c id card_key host_challenge card_challenge ≡ ok (channel, answer)
    → send (Command.serialize (request key_id host_challenge)) w
      ≡ (some (Response.serialize answer), w')
    → card_cryptogram c {E = SessionErrorKind} (fresh c id host_key host_challenge card_challenge)
      ≢ card_cryptogram c (fresh c id card_key host_challenge card_challenge)
    → open_channel send c key_id host_key host_challenge w ≡ (err authentication_error, w')
unfolding cryptogram_of
open_channel-other_key send c laws w w' key_id id host_key card_key host_challenge card_challenge
      channel answer named size size' asked eight made sent differ =
    open_channel_ok c laws id named host_challenge card_challenge eight send w w' key_id asked
      host_key (cryptogram_of c laws id named host_challenge card_challenge eight card_key) size
      (length-cryptogram_of c laws id named host_challenge card_challenge eight send w w' key_id
        asked card_key)
      (sent ∙ ap (λ a. (some (Response.serialize a), w')) (sym same_answer))
    ∙ elim (Bool-cases (bytes_eq host_cryptogram card_cryptogram)) [
      | inl e ↦ absurd (
          differ (
            card_cryptogram_ok c laws {E = SessionErrorKind}
              (fresh c id host_key host_challenge card_challenge)
              (keyed c laws id named host_challenge card_challenge eight host_key)
            ∙ ap ok (bytes_eq→eq host_cryptogram card_cryptogram e)
            ∙ sym (
                card_cryptogram_ok c laws {E = SessionErrorKind}
                  (fresh c id card_key host_challenge card_challenge)
                  (keyed c laws id named host_challenge card_challenge eight card_key))))
      | inr e ↦ rw e
    ]
  where
    host_cryptogram : List ℕ
    host_cryptogram = cryptogram_of c laws id named host_challenge card_challenge eight host_key

    card_cryptogram : List ℕ
    card_cryptogram = cryptogram_of c laws id named host_challenge card_challenge eight card_key

    same_answer : invitation id card_challenge card_cryptogram ≡ answer
    same_answer =
        (ok_pair (
          sym (create_session_ok c laws id named host_challenge card_challenge eight card_key size')
          ∙ made)).1
