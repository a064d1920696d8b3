-- ===== src/Command/Message/RoundTrip.antt =====
-- The frames of commands (src/command/message.rs): `parse` inverts `serialize`, accepts no other
-- bytes, and does not panic.
use yubihsm_rs.Base.{
  ℕ, ◌+◌, ==_refl, ◌/◌, ◌%◌, ◌∙◌, sym, ◌≡◌, ◌≢◌, ◌↔◌, ap, List, [], ◌∷◌, length, ok, panic, arith,
  All,
}
use yubihsm_rs.Base.Bytes.{IsByte, u16_of, u16_of-u16_bytes}
use yubihsm_rs.Command.Code
use yubihsm_rs.Command.Code.{CommandCode}
use yubihsm_rs.Command.Message.{CommandMessage, parse, serialize, parse_body, len}
pub use yubihsm_rs.Command.Message.Parts.{IsWellFormed}
use yubihsm_rs.Command.Message.Parts.{
  is_in_session, HasParts, tail_bytes, body_ok, body_inv, body-ne-panic, length-tail_bytes,
}

-- Reading the header: what is left to show once the code and the length are right.
parse_header :
    (code hi lo : ℕ) (bytes : List ℕ) (c : CommandCode)
    → Code.from_u8 code ≡ ok c
    → u16_of hi lo ≡ length bytes
    → parse (code ∷ hi ∷ lo ∷ bytes) ≡ parse_body c bytes
parse_header code hi lo bytes c e h = unfold parse in rw (e, h, ==_refl (length bytes + 3))

header_inv :
    (code hi lo : ℕ) (bytes : List ℕ) (m : CommandMessage)
    → parse (code ∷ hi ∷ lo ∷ bytes) ≡ ok m
    → (c : CommandCode) × (Code.from_u8 code ≡ ok c) × (u16_of hi lo ≡ length bytes)
unfolding parse
header_inv code hi lo bytes m e = ground arith

-- A message that a frame can hold is read back from its bytes.
pub command_parse-serialize : (m : CommandMessage) → IsWellFormed m → parse (serialize m) ≡ ok m
unfolding serialize tail_bytes
command_parse-serialize m h =
    parse_header _ _ _ (tail_bytes m) m.command_type (Code.from_u8-to_u8 m.command_type)
      (omega (arith, u16_of-u16_bytes (len m) h.short, length-tail_bytes m h.parts))
    ∙ body_ok m.command_type m.session_id m.data_bytes m.mac h.parts

cons3 :
    {a b c x y z : ℕ} {l r : List ℕ} → a ≡ x → b ≡ y → c ≡ z → l ≡ r → a ∷ b ∷ c ∷ l ≡ x ∷ y ∷ z ∷ r
cons3 p q s t = cc

-- Bytes that are accepted are those written for the message read, and it is one that a frame
-- can hold.
pub serialize-parse :
    (bytes : List ℕ) (m : CommandMessage)
    → All IsByte bytes
    → parse bytes ≡ ok m
    → (serialize m ≡ bytes) × IsWellFormed m
serialize-parse [] m h e = unfold parse in cc
serialize-parse (_ ∷ []) m h e = unfold parse in cc
serialize-parse (_ ∷ _ ∷ []) m h e = unfold parse in cc
serialize-parse (code ∷ hi ∷ lo ∷ bytes) m h e = (
  unfold serialize tail_bytes in cons3 code_same hi_same lo_same body.1,
  record { parts = parts; short = omega (arith, measure, header.2, h.1.0, h.1.1.0) },
)
  where
    header : (c : CommandCode) × (Code.from_u8 code ≡ ok c) × (u16_of hi lo ≡ length bytes)
    header = header_inv code hi lo bytes m e

    body :
        (m.command_type ≡ header.0)
        × (tail_bytes m ≡ bytes)
        × HasParts (is_in_session header.0) m.session_id m.mac
    body =
        body_inv header.0 bytes m
          (sym (parse_header code hi lo bytes header.0 header.1 header.2) ∙ e)

    parts : HasParts (is_in_session m.command_type) m.session_id m.mac
    parts = rw body.0 body.2

    measure : len m ≡ length bytes
    measure = sym (length-tail_bytes m parts) ∙ ap length body.1

    code_same : Code.to_u8 m.command_type ≡ code
    code_same = rw body.0 (Code.to_u8-from_u8 code header.0 h.0 header.1)

    hi_same : len m / 256 % 256 ≡ hi
    hi_same = omega (arith, measure, header.2, h.1.0, h.1.1.0)

    lo_same : len m % 256 ≡ lo
    lo_same = omega (arith, measure, header.2, h.1.0, h.1.1.0)

-- Reading a command never panics.
pub command_parse-ne-panic : (bytes : List ℕ) → parse bytes ≢ panic
command_parse-ne-panic [] e = unfold parse in cc
command_parse-ne-panic (_ ∷ []) e = unfold parse in cc
command_parse-ne-panic (_ ∷ _ ∷ []) e = unfold parse in cc
command_parse-ne-panic (code ∷ hi ∷ lo ∷ bytes) e =
    unfold parse in grind (arith, Code.from_u8-ne-panic code, body-ne-panic)

-- `parse` reads a string of bytes as a message exactly when they are the bytes that `serialize`
-- writes for it and a frame can hold it.
pub command_parse_iff :
    (bytes : List ℕ) (m : CommandMessage)
    → All IsByte bytes
    → (parse bytes ≡ ok m) ↔ ((serialize m ≡ bytes) × IsWellFormed m)
command_parse_iff bytes m h =
    (serialize-parse bytes m h, λ p. sym (ap parse p.0) ∙ command_parse-serialize m p.1)
