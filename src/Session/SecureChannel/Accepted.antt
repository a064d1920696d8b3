-- ===== src/Session/SecureChannel/Accepted.antt =====
-- Which answers open a channel (`SecureChannel::open` of src/session/securechannel.rs).
use yubihsm_rs.Base.{
  ℕ, ◌^◌, ◌<◌, ◌≤◌, ◌≡◌, ◌↔◌, refl, ap, sym, ◌∙◌, Option, some, List, ◌++◌, length, All, ok, arith,
  true,
}
use mathlib.Core.Path.{subst}
use yubihsm_rs.Base.Bytes.{IsByte}
use yubihsm_rs.Base.Results.{ok-inj, ◌>>=◌, >>=-eq-ok}
use yubihsm_rs.Command.Code as CommandCodes
use yubihsm_rs.Command.Code.{CommandCode}
use yubihsm_rs.Command.Message as Command
use yubihsm_rs.Response.Code as ResponseCodes
use yubihsm_rs.Response.Code.{ResponseCode}
use yubihsm_rs.Response.Message as Response
use yubihsm_rs.Response.Message.{ResponseMessage}
use yubihsm_rs.Response.Message.Parts as ResponseParts
use yubihsm_rs.Response.Message.RoundTrip.{response_parse_iff, response_parse-serialize}
use yubihsm_rs.Session.Error.{SessionErrorKind}
use yubihsm_rs.Session.SecureChannel.Crypto.{Crypto, CryptoLaws}
use yubihsm_rs.Session.SecureChannel.Channel.{SecureChannel, new}
use yubihsm_rs.Session.SecureChannel.Handshake.{
  verify_card, fresh, derived, new_ok, card_cryptogram_ok, length-derived, verify_card_iff,
}
use yubihsm_rs.Session.SecureChannel.Create.{
  create_session_response, created, accept_card, received, open_channel,
}
use yubihsm_rs.Session.SecureChannel.Invited.{invitation_with, created_inv}
use yubihsm_rs.Session.SecureChannel.Created.{request, create_session_message_ok}
use yubihsm_rs.Wire.{deserialize, write}
use yubihsm_rs.Wire.RoundTrip.{read-write}

module _ (c : Crypto) (laws : CryptoLaws c) (key host_challenge : List ℕ)
    (size : length key ≡ 32) where
  -- The cryptogram that the host expects of a card with its key, under a number and a challenge.
  abbrev pub expected : ℕ → List ℕ → List ℕ
  expected id card_challenge =
      derived c (fresh c id key host_challenge card_challenge).mac_key 0
        (host_challenge ++ card_challenge) 8

  -- An answer that opens a channel, once it is read.
  abbrev pub Invites : ResponseMessage → SecureChannel → Type 0
  Invites r s =
      (id : ℕ) × (card_challenge : List ℕ) × (left : List ℕ) × (id ≤ 16)
      × (length card_challenge ≡ 8)
      × (invitation_with id card_challenge (expected id card_challenge) left ≡ r)
      × (fresh c id key host_challenge card_challenge ≡ s)

  keyed :
      (id : ℕ) (card_challenge : List ℕ)
      → length (fresh c id key host_challenge card_challenge).mac_key ≡ 16
  keyed id card_challenge =
      length-derived c laws _ 6 (fresh c id key host_challenge card_challenge).context 16
        (omega arith)

  verified_iff :
      (id : ℕ) (card_challenge cryptogram : List ℕ) (s : SecureChannel)
      → ((new c id key host_challenge card_challenge >>= λ channel.
            verify_card c channel cryptogram)
          ≡ ok s)
        ↔ ((expected id card_challenge ≡ cryptogram)
            × (fresh c id key host_challenge card_challenge ≡ s))
  verified_iff id card_challenge cryptogram s =
      rw (new_ok c laws {E = SessionErrorKind} id key host_challenge card_challenge size) (
        let channel = fresh c id key host_challenge card_challenge in
        let (sound, complete) =
          verify_card_iff c laws channel s cryptogram (keyed id card_challenge) in
        let own =
          card_cryptogram_ok c laws {E = SessionErrorKind} channel (keyed id card_challenge) in
        (λ e. (ok-inj (sym own ∙ (sound e).0), (sound e).1), λ p. complete (own ∙ ap ok p.0, p.1)))

  named_of :
      (id : ℕ) (session_id : Option ℕ)
      → some id ≡ session_id
      → ResponseParts.HasId true session_id
      → id ≤ 16
  named_of id session_id e h = subst (ResponseParts.HasId true) (sym e) h

  accepted_inv :
      (r : ResponseMessage) (s : SecureChannel)
      → ResponseParts.IsWellFormed r
      → (created r >>= λ p.
          new c p.0 key host_challenge (p.1).0 >>= λ channel. verify_card c channel (p.1).1)
        ≡ ok s
      → Invites r s
  unfolding Response.has_session_id
  accepted_inv r s w e = opened (>>=-eq-ok (created r) _ e)
    where
      opened :
          (p : ℕ × (List ℕ × List ℕ)) × (created r ≡ ok p)
            × ((new c p.0 key host_challenge (p.1).0 >>= λ channel. verify_card c channel (p.1).1)
                ≡ ok s)
          → Invites r s
      opened ((id, (card_challenge, cryptogram)), made, e1) =
          let (left, whole, eight, eight') = created_inv r id card_challenge cryptogram w made in
          let (own, kept) = (verified_iff id card_challenge cryptogram s).0 e1 in
          let coded = ap (λ q. q.code) whole in
          (
            id,
            card_challenge,
            left,
            named_of id r.session_id (ap (λ q. q.session_id) whole) (
                subst (λ code. ResponseParts.HasId (Response.has_session_id code) r.session_id)
                  (sym coded) w.numbered),
            eight,
            ap (λ l. invitation_with id card_challenge l left) own ∙ whole,
            kept,
          )

  created_ok_with :
      (id : ℕ) (card_challenge cryptogram left : List ℕ)
      → length card_challenge ≡ 8
      → length cryptogram ≡ 8
      → created (invitation_with id card_challenge cryptogram left)
        ≡ ok (id, (card_challenge, cryptogram))
  unfolding created Response.is_err ResponseCodes.is_success Response.command CommandCodes.to_u8
      deserialize write
  created_ok_with id card_challenge cryptogram left h k =
      rw (read-write create_session_response (card_challenge, cryptogram) left (tt, tt) (h, k))

  length-expected : (id : ℕ) (card_challenge : List ℕ) → length (expected id card_challenge) ≡ 8
  length-expected id card_challenge = length-derived c laws _ 0 _ 8 (omega arith)

  invitation_with-IsWellFormed :
      (id : ℕ) (card_challenge cryptogram left : List ℕ)
      → id ≤ 16
      → Response.len (invitation_with id card_challenge cryptogram left) < 2 ^ 16
      → ResponseParts.IsWellFormed (invitation_with id card_challenge cryptogram left)
  invitation_with-IsWellFormed id card_challenge cryptogram left named short = record {
    own_byte = λ e. cc;
    numbered = unfold Response.has_session_id in named;
    signed = unfold Response.has_rmac in tt;
    short = short;
  }

  -- A frame that is a success of CreateSession with a session number of at most 16, a challenge of
  -- eight bytes, the cryptogram that the host's key gives, and any further bytes, with the channel
  -- that the key gives.
  abbrev pub IsInvitation : List ℕ → SecureChannel → Type 0
  IsInvitation reply s =
      (id : ℕ) × (card_challenge : List ℕ) × (left : List ℕ) × (id ≤ 16)
      × (length card_challenge ≡ 8)
      × (Response.len (invitation_with id card_challenge (expected id card_challenge) left)
          < 2 ^ 16)
      × (Response.serialize (invitation_with id card_challenge (expected id card_challenge) left)
          ≡ reply)
      × (fresh c id key host_challenge card_challenge ≡ s)

  accept_card_ok :
      (reply : List ℕ) (s : SecureChannel)
      → IsInvitation reply s
      → accept_card c key host_challenge reply ≡ ok s
  unfolding accept_card
  accept_card_ok reply s (id, card_challenge, left, named, eight, short, same, kept) =
      rw (sym same) (
        rw
          (response_parse-serialize _ (
            invitation_with-IsWellFormed id card_challenge (expected id card_challenge) left named
              short))
          (rw
            (created_ok_with id card_challenge (expected id card_challenge) left eight
              (length-expected id card_challenge))
            ((verified_iff id card_challenge (expected id card_challenge) s).1 (refl, kept))))

  -- A connector hands the frame that asks for a session to a device, and a string of bytes back.
  -- The host opens a channel exactly if these are a success of CreateSession with a session number
  -- of at most 16, a challenge of eight bytes, and the cryptogram that the host's key of 32 bytes
  -- gives for both challenges; what follows them in the data does not matter. The channel is the
  -- one that the key gives for that number and the challenges.
  pub open_channel_iff :
      {W : Type 0} (send : List ℕ → W → Option (List ℕ) × W) (key_id : ℕ) (reply : List ℕ)
      (w w' : W) (s : SecureChannel)
      → length host_challenge ≡ 8
      → send (Command.serialize (request key_id host_challenge)) w ≡ (some reply, w')
      → All IsByte reply
      → (open_channel send c key_id key host_challenge w ≡ (ok s, w')) ↔ IsInvitation reply s
  unfolding open_channel received accept_card
  open_channel_iff send key_id reply w w' s asked sent bytes =
      rw (create_session_message_ok {E = SessionErrorKind} key_id host_challenge asked) (
        rw sent (
          (
            λ e. opened (>>=-eq-ok (Response.parse reply) _ (ap (λ p. p.0) e)),
            λ h. ap (λ r. (r, w')) (accept_card_ok reply s h),
          )))
    where
      opened :
          (r : ResponseMessage) × (Response.parse reply ≡ ok r)
            × ((created r >>= λ p.
                  new c p.0 key host_challenge (p.1).0 >>= λ channel. verify_card c channel (p.1).1)
                ≡ ok s)
          → IsInvitation reply s
      opened (r, parsed, run) =
          let (whole, w) = (response_parse_iff reply r bytes).0 parsed in
          let (id, card_challenge, left, named, eight, same, kept) = accepted_inv r s w run in
          (
            id,
            card_challenge,
            left,
            named,
            eight,
            subst (λ m. Response.len m < 2 ^ 16) (sym same) w.short,
            ap Response.serialize same ∙ whole,
            kept,
          )
