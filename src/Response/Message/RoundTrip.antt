-- ===== src/Response/Message/RoundTrip.antt =====
-- The frames of responses (src/response/message.rs): `parse` inverts `serialize`, accepts no
-- other bytes, and does not panic.
use yubihsm_rs.Base.{
  ℕ, ◌+◌, ==_refl, ◌==◌, Result-cases, ensure, ◌>>=◌, ◌>>◌, inl, inr, ◌∙◌, sym, ◌≡◌, ◌≢◌, ◌↔◌, refl,
  ap, Option, none, some, List, [], ◌∷◌, ◌++◌, length, Result, ok, panic, arith, length-append, All,
  Bool, true, false, append-nil,
}
use mathlib.Core.Path.{subst}
use yubihsm_rs.Base.Bytes.{IsByte, u16_of, u16_of-u16_bytes}
use yubihsm_rs.Command.Code.{CommandCode}
use yubihsm_rs.Command.Message.{id_bytes, mac_bytes}
use yubihsm_rs.Response.Code
use yubihsm_rs.Response.Code.{ResponseCode}
use yubihsm_rs.Response.Code.RoundTrip.{response_code_from_u8_iff, from_u8-ne-panic, to_u8-lt}
use yubihsm_rs.Session.Id.{SessionId}
use yubihsm_rs.Session.Mac.{Mac}
use yubihsm_rs.Session.Error.{SessionErrorKind, protocol_error}
use yubihsm_rs.Response.Message.{
  ResponseMessage, parse, serialize, split_session_id, split_mac, len, has_session_id, has_rmac,
}
use yubihsm_rs.Response.Message.Parts.{
  HasId, HasMac, IsWellFormed, split_session_id_iff, split_mac_ok, split_mac_inv,
  split_mac-ne-panic, split_session_id-ne-panic,
}

tail_bytes : ResponseMessage → List ℕ
tail_bytes m = id_bytes m.session_id ++ (m.data_bytes ++ mac_bytes m.mac)

measured :
    (b c : Bool) (id : Option SessionId) (bytes : List ℕ) (mac : Option Mac)
    → HasId b id
    → HasMac c mac
    → length (id_bytes id ++ (bytes ++ mac_bytes mac))
      ≡ length bytes + (elim id [ none ↦ 0 | some _ ↦ 1 ]) + (elim mac [ none ↦ 0 | some _ ↦ 8 ])
measured true true (some id) bytes (some mac) h k = omega (arith, length-append bytes mac, k)
measured false true none bytes (some mac) h k = omega (arith, length-append bytes mac, k)
measured false c none bytes none h k = rw (append-nil bytes) (omega arith)
measured true c (some id) bytes none h k = rw (append-nil bytes) (omega arith)
measured true c none bytes mac h k = absurd h
measured false c (some id) bytes mac h k = absurd h
measured b false id bytes (some mac) h k = absurd k

length-tail_bytes : (m : ResponseMessage) → IsWellFormed m → length (tail_bytes m) ≡ len m
unfolding tail_bytes len
length-tail_bytes m w = measured _ _ m.session_id m.data_bytes m.mac w.numbered w.signed

-- What the steps of `parse` find.
record Steps (first hi lo : ℕ) (bytes : List ℕ) (m : ResponseMessage) : Type 0 where
  rest : List ℕ
  coded : Code.from_u8 first ≡ ok m.code
  measure : u16_of hi lo ≡ length bytes
  numbered : split_session_id m.code bytes ≡ ok (m.session_id, rest)
  signed : split_mac m.code rest ≡ ok (m.mac, m.data_bytes)

parse_ok :
    (first hi lo : ℕ) (bytes : List ℕ) (m : ResponseMessage)
    → Steps first hi lo bytes m
    → parse (first ∷ hi ∷ lo ∷ bytes) ≡ ok m
unfolding parse
parse_ok first hi lo bytes m s =
    rw (s.coded, s.measure, ==_refl (length bytes + 3), s.numbered, s.signed)

-- What `parse` does once it has the code, and once it has the session number.
abbrev finish : ResponseCode → Option SessionId → List ℕ → Result SessionErrorKind ResponseMessage
finish code id rest = do
  (mac, data_bytes) ← split_mac code rest
  ok (record { code = code; session_id = id; data_bytes = data_bytes; mac = mac })

abbrev after_code : ℕ → ℕ → List ℕ → ResponseCode → Result SessionErrorKind ResponseMessage
after_code hi lo bytes code = do
  ensure (u16_of hi lo + 3 == length bytes + 3) protocol_error
  (id, rest) ← split_session_id code bytes
  finish code id rest

abbrev ok_message : ResponseMessage → Result SessionErrorKind ResponseMessage
ok_message m = ok m

finish_inv :
    (code : ResponseCode) (id : Option SessionId) (rest : List ℕ) (m : ResponseMessage)
    → finish code id rest ≡ ok m
    → (m.code ≡ code) × (m.session_id ≡ id) × (split_mac code rest ≡ ok (m.mac, m.data_bytes))
finish_inv code id rest m e = elim (Result-cases (split_mac code rest)) [
  | inl ((mac, data_bytes), split) ↦
      subst
        (λ x.
          (x.code ≡ code) × (x.session_id ≡ id) × (split_mac code rest ≡ ok (x.mac, x.data_bytes)))
        (made mac data_bytes (rw split at e)) (refl, refl, split)
  | inr failed ↦ absurd (ground arith)
]
  where
    made :
        (mac : Option Mac) (data_bytes : List ℕ)
        → ok_message (record { code = code; session_id = id; data_bytes = data_bytes; mac = mac })
          ≡ ok m
        → record { code = code; session_id = id; data_bytes = data_bytes; mac = mac } ≡ m
    made mac data_bytes q = cc

after_code_inv :
    (hi lo : ℕ) (bytes : List ℕ) (code : ResponseCode) (m : ResponseMessage)
    → after_code hi lo bytes code ≡ ok m
    → (u16_of hi lo ≡ length bytes)
      × (id : Option SessionId) × (rest : List ℕ) × (split_session_id code bytes ≡ ok (id, rest))
      × (finish code id rest ≡ ok m)
after_code_inv hi lo bytes code m e = elim (Result-cases (split_session_id code bytes)) [
  | inl ((id, rest), split) ↦ (ground arith, id, rest, split, ground arith)
  | inr failed ↦ absurd (ground arith)
]

parse_inv :
    (first hi lo : ℕ) (bytes : List ℕ) (m : ResponseMessage)
    → parse (first ∷ hi ∷ lo ∷ bytes) ≡ ok m
    → Steps first hi lo bytes m
parse_inv first hi lo bytes m e = elim (Result-cases (Code.from_u8 first)) [
  | inl (code, c) ↦ from_code code c (after_code_inv hi lo bytes code m (unfold parse in rw c at e))
  | inr failed ↦ absurd (unfold parse in ground arith)
]
  where
    from_code :
        (code : ResponseCode)
        → Code.from_u8 first ≡ ok code
        → (u16_of hi lo ≡ length bytes)
          × (id : Option SessionId) × (rest : List ℕ) × (split_session_id code bytes
              ≡ ok (id, rest))
          × (finish code id rest ≡ ok m)
        → Steps first hi lo bytes m
    from_code code c (measure, id, rest, split, done) =
        let (same_code, same_id, signed) = finish_inv code id rest m done in
        record {
          rest = rest;
          coded = rw same_code c;
          measure = measure;
          numbered = rw (same_code, same_id) split;
          signed = rw same_code signed;
        }

-- A response that a frame can hold is read back from its bytes.
pub response_parse-serialize : (m : ResponseMessage) → IsWellFormed m → parse (serialize m) ≡ ok m
unfolding serialize tail_bytes
response_parse-serialize m w = parse_ok _ _ _ (tail_bytes m) m (record {
  rest = m.data_bytes ++ mac_bytes m.mac;
  coded = (response_code_from_u8_iff _ m.code (to_u8-lt m.code)).1 (refl, w.own_byte);
  measure = omega (arith, u16_of-u16_bytes (len m) w.short, length-tail_bytes m w);
  numbered = (split_session_id_iff m.code (tail_bytes m) m.session_id _).1 (w.numbered, refl);
  signed = split_mac_ok m.code m.data_bytes m.mac w.signed;
})

cons3 :
    {a b c x y z : ℕ} {l r : List ℕ} → a ≡ x → b ≡ y → c ≡ z → l ≡ r → a ∷ b ∷ c ∷ l ≡ x ∷ y ∷ z ∷ r
cons3 p q s t = cc

-- What the steps of `parse` show of the message read.
module _ (first hi lo : ℕ) (bytes : List ℕ) (m : ResponseMessage)
    (small : All IsByte (first ∷ hi ∷ lo ∷ bytes)) (s : Steps first hi lo bytes m) where
  code_read :
      (Code.to_u8 m.code ≡ first) × (m.code ≢ ResponseCode.success CommandCode.hsm_initialization)
  code_read = (response_code_from_u8_iff first m.code small.0).0 s.coded

  numbered_read :
      HasId (has_session_id m.code) m.session_id × (id_bytes m.session_id ++ s.rest ≡ bytes)
  numbered_read = (split_session_id_iff m.code bytes m.session_id s.rest).0 s.numbered

  signed_read : HasMac (has_rmac m.code) m.mac × (m.data_bytes ++ mac_bytes m.mac ≡ s.rest)
  signed_read = split_mac_inv m.code s.rest m.mac m.data_bytes s.signed

  tail_read : tail_bytes m ≡ bytes
  unfolding tail_bytes
  tail_read = rw (signed_read.1) numbered_read.1

  length_read : len m ≡ length bytes
  unfolding len
  length_read =
      sym (measured _ _ m.session_id m.data_bytes m.mac numbered_read.0 signed_read.0)
      ∙ (unfold tail_bytes in ap length tail_read)

  message_read : (serialize m ≡ first ∷ hi ∷ lo ∷ bytes) × IsWellFormed m
  unfolding serialize tail_bytes
  message_read = (
    cons3 code_read.0 (omega (arith, length_read, s.measure, small.1.0, small.1.1.0))
        (omega (arith, length_read, s.measure, small.1.0, small.1.1.0)) tail_read,
    record {
      own_byte = code_read.1;
      numbered = numbered_read.0;
      signed = signed_read.0;
      short = omega (arith, length_read, s.measure, small.1.0, small.1.1.0);
    },
  )

serialize-parse :
    (bytes : List ℕ) (m : ResponseMessage)
    → All IsByte bytes
    → parse bytes ≡ ok m
    → (serialize m ≡ bytes) × IsWellFormed m
serialize-parse [] m h e = unfold parse in cc
serialize-parse (_ ∷ []) m h e = unfold parse in cc
serialize-parse (_ ∷ _ ∷ []) m h e = unfold parse in cc
serialize-parse (first ∷ hi ∷ lo ∷ bytes) m h e =
    message_read first hi lo bytes m h (parse_inv first hi lo bytes m e)

-- `parse` reads a string of bytes as a response exactly when they are the bytes that `serialize`
-- writes for it and a frame can hold it.
pub response_parse_iff :
    (bytes : List ℕ) (m : ResponseMessage)
    → All IsByte bytes
    → (parse bytes ≡ ok m) ↔ ((serialize m ≡ bytes) × IsWellFormed m)
response_parse_iff bytes m h =
    (serialize-parse bytes m h, λ p. sym (ap parse p.0) ∙ response_parse-serialize m p.1)

-- Reading a response never panics.
pub response_parse-ne-panic : (bytes : List ℕ) → parse bytes ≢ panic
response_parse-ne-panic [] e = unfold parse in cc
response_parse-ne-panic (_ ∷ []) e = unfold parse in cc
response_parse-ne-panic (_ ∷ _ ∷ []) e = unfold parse in cc
response_parse-ne-panic (first ∷ hi ∷ lo ∷ bytes) e =
    unfold parse in
    grind (arith, from_u8-ne-panic first, split_session_id-ne-panic, split_mac-ne-panic)
