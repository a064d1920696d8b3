-- ===== src/Session/SecureChannel/Invited.antt =====
-- What an answer to CreateSession is made of, when its parts are read (`SecureChannel::open` of
-- src/session/securechannel.rs).
use yubihsm_rs.Base.{
  ℕ, ◌≡◌, refl, ap, sym, ◌∙◌, Option, none, some, List, ◌++◌, length, Result, ok, false,
  append_assoc, ==_iff, ◌==◌, not,
}
use mathlib.Core.Path.{subst}
use yubihsm_rs.Base.Results.{
  >>=-eq-ok, ok-inj, expect-eq-ok, map_err-eq-ok, ensure-eq-ok, ensure, expect, ok_or, map_err,
}
use yubihsm_rs.Command.Code as CommandCodes
use yubihsm_rs.Command.Code.{CommandCode}
use yubihsm_rs.Command.Error.{CommandErrorKind}
use yubihsm_rs.Response.Code.{ResponseCode}
use yubihsm_rs.Response.Message as Response
use yubihsm_rs.Response.Message.{ResponseMessage}
use yubihsm_rs.Response.Message.Parts as ResponseParts
use yubihsm_rs.Session.Error.{SessionErrorKind}
use yubihsm_rs.Session.SecureChannel.Create.{create_session_response, created}
use yubihsm_rs.Wire.{deserialize, read, read_exact}
use yubihsm_rs.Wire.RoundTrip.{read_exact_inv}

-- An answer with a session's number, a challenge and a cryptogram, and what follows them.
abbrev pub invitation_with : ℕ → List ℕ → List ℕ → List ℕ → ResponseMessage
invitation_with id card_challenge cryptogram left = record {
  code = ResponseCode.success CommandCode.create_session;
  session_id = some id;
  data_bytes = (card_challenge ++ cryptogram) ++ left;
  mac = none;
}

same_command : (a b : CommandCode) → CommandCodes.to_u8 a ≡ CommandCodes.to_u8 b → a ≡ b
same_command a b h =
    same (
      sym (CommandCodes.from_u8-to_u8 a) ∙ ap CommandCodes.from_u8 h ∙ CommandCodes.from_u8-to_u8 b)
  where
    same : ◌≡◌ {A = Result CommandErrorKind CommandCode} (ok a) (ok b) → a ≡ b
    same e = cc

command_inv :
    (r : ResponseMessage) (command : CommandCode)
    → Response.command r ≡ some command
    → r.code ≡ ResponseCode.success command
unfolding Response.command
command_inv r command e = by_code r.code e
  where
    by_code :
        (code : ResponseCode)
        → Response.command (record r { code = code }) ≡ some command
        → code ≡ ResponseCode.success command
    by_code (ResponseCode.success other) given = cc
    by_code _ given = cc

ok_or_inv :
    {A : Type 0} (o : Option A) (a : A) (error : SessionErrorKind)
    → ok_or o error ≡ ok a
    → o ≡ some a
ok_or_inv none a error e = cc
ok_or_inv (some b) a error e = cc

no_mac : (r : ResponseMessage) → ResponseParts.HasMac false r.mac → r.mac ≡ none
no_mac r h = by_mac r.mac refl
  where
    by_mac : (mac : Option (List ℕ)) → r.mac ≡ mac → r.mac ≡ none
    by_mac none given = given
    by_mac (some mac) given = absurd (subst (ResponseParts.HasMac false) given h)

-- What is read as the fields of the response.
fields_inv :
    (bytes card_challenge cryptogram : List ℕ)
    → deserialize create_session_response bytes ≡ ok (card_challenge, cryptogram)
    → (left : List ℕ) × ((card_challenge ++ cryptogram) ++ left ≡ bytes)
      × (length card_challenge ≡ 8)
      × (length cryptogram ≡ 8)
unfolding deserialize read
fields_inv bytes card_challenge cryptogram e =
    let ((v, left), whole, value) = >>=-eq-ok (read create_session_response bytes) _ e in
    let ((first, middle), taken, more) = >>=-eq-ok (read_exact 8 bytes) _ whole in
    let ((second, end), taken', last) = >>=-eq-ok (read_exact 8 middle) _ more in
    let (joined, size, _, _) = read_exact_inv 8 bytes first middle taken in
    let (joined', size', _, _) = read_exact_inv 8 middle second end taken' in
    let same = ok-inj value in
    let pairs = ok-inj last in
    (
      end,
      rw
          (
            sym (ap (λ p. (p.0).0) pairs ∙ ap (λ p. p.0) same),
            sym (ap (λ p. (p.0).1) pairs ∙ ap (λ p. p.1) same),
          )
          (append_assoc first second end ∙ ap (λ l. first ++ l) joined' ∙ joined),
      sym (ap (λ p. length p.0) same) ∙ sym (ap (λ p. length (p.0).0) pairs) ∙ size,
      sym (ap (λ p. length p.1) same) ∙ sym (ap (λ p. length (p.0).1) pairs) ∙ size',
    )

-- An answer whose parts are read is made of them.
pub created_inv :
    (r : ResponseMessage) (id : ℕ) (card_challenge cryptogram : List ℕ)
    → ResponseParts.IsWellFormed r
    → created r ≡ ok (id, (card_challenge, cryptogram))
    → (left : List ℕ) × (invitation_with id card_challenge cryptogram left ≡ r)
      × (length card_challenge ≡ 8)
      × (length cryptogram ≡ 8)
unfolding created Response.has_rmac
created_inv r id card_challenge cryptogram w e =
    let (_, _, e1) = >>=-eq-ok (ensure (not (Response.is_err r)) _) _ e in
    let (command, has_command, e2) = >>=-eq-ok (expect (Response.command r)) _ e1 in
    let (_, tested, e3) =
      >>=-eq-ok
        (ensure (CommandCodes.to_u8 command == CommandCodes.to_u8 CommandCode.create_session) _) _
        e2 in
    let (number, has_id, e4) = >>=-eq-ok (ok_or r.session_id _) _ e3 in
    let (fields, has_fields, e5) =
      >>=-eq-ok (map_err _ (deserialize create_session_response r.data_bytes)) _ e4 in
    let coded =
      command_inv r command
        (expect-eq-ok {E = SessionErrorKind} (Response.command r) command has_command)
      ∙ ap ResponseCode.success (
          same_command command CommandCode.create_session
            ((==_iff _ _).0 (ensure-eq-ok _ _ tested))) in
    let signed =
      no_mac r
        (subst (λ code. ResponseParts.HasMac (Response.has_rmac code) r.mac) coded w.signed) in
    let given = ok_or_inv r.session_id number _ has_id in
    let same = ok-inj e5 in
    let (left, whole, size, size') =
      fields_inv r.data_bytes card_challenge cryptogram
        (map_err-eq-ok _ _ has_fields ∙ ap (λ p. ok p.1) same) in
    (
      left,
      λ i. record {
        code = sym coded i;
        session_id = sym (given ∙ ap (λ p. some p.0) same) i;
        data_bytes = whole i;
        mac = sym signed i;
      },
      size,
      size',
    )
