-- ===== src/Command/Message/Parts.antt =====
-- What follows the header of a command frame (src/command/message.rs): the session number in
-- front, the data, and the MAC behind.
use yubihsm_rs.Base.{
  ℕ, ◌+◌, ◌-◌, ◌≤◌, ◌<◌, ◌^◌, ◌≡◌, ◌≢◌, refl, ap, take, drop, Option, none, some, List, [], ◌∷◌,
  ◌++◌, length, ok, panic, arith, take_append, drop_append, length-append, take-append-drop,
  length-drop, Bool, true, false, append-nil,
}
use mathlib.Core.Path.{subst}
use yubihsm_rs.Command.Code.{CommandCode}
use yubihsm_rs.Session.Id
use yubihsm_rs.Session.Id.{SessionId}
use yubihsm_rs.Session.Mac
use yubihsm_rs.Session.Mac.{Mac}
use yubihsm_rs.Command.Message.{
  CommandMessage, parse_body, parse_in_session, len, id_bytes, mac_bytes,
}

-- The commands that carry a session number and a MAC.
abbrev pub is_in_session : CommandCode → Bool
is_in_session CommandCode.authenticate_session = true
is_in_session CommandCode.session_message = true
is_in_session _ = false

abbrev pub HasParts : Bool → Option SessionId → Option Mac → Type 0
HasParts true (some id) (some mac) = (id ≤ Id.max_session_id) × (length mac ≡ 8)
HasParts false none none = Unit
HasParts _ _ _ = ⊥

-- A message that a frame can hold: it has a session number and a MAC exactly where its command
-- wants them, and its length fits the two bytes of the header.
pub record IsWellFormed (m : CommandMessage) : Type 0 where
  pub parts : HasParts (is_in_session m.command_type) m.session_id m.mac
  pub short : len m < 2 ^ 16

unfoldable pub tail_bytes : CommandMessage → List ℕ
tail_bytes m = id_bytes m.session_id ++ (m.data_bytes ++ mac_bytes m.mac)

parse_in_session_ok :
    (c : CommandCode) (id : ℕ) (bytes mac : List ℕ)
    → id ≤ 16
    → length mac ≡ 8
    → parse_in_session c (id ∷ (bytes ++ mac))
      ≡ ok (record { command_type = c; session_id = some id; data_bytes = bytes; mac = some mac })
unfolding parse_in_session Id.from_u8 Mac.from_slice
parse_in_session_ok c id bytes mac hi hm = ground (
  arith,
  length-append bytes mac,
  take_append (length (bytes ++ mac) - 8) bytes mac,
  drop_append (length (bytes ++ mac) - 8) bytes mac,
)

-- What the tests of `parse_in_session` let through.
in_session_tests :
    (c : CommandCode) (id : ℕ) (bytes : List ℕ) (m : CommandMessage)
    → parse_in_session c (id ∷ bytes) ≡ ok m
    → (id ≤ 16) × (8 ≤ length bytes)
unfolding parse_in_session Id.from_u8
in_session_tests c id bytes m e = ground arith

parse_in_session_inv :
    (c : CommandCode) (bytes : List ℕ) (m : CommandMessage)
    → parse_in_session c bytes ≡ ok m
    → (m.command_type ≡ c) × (tail_bytes m ≡ bytes) × HasParts true m.session_id m.mac
parse_in_session_inv c [] m e = unfold parse_in_session in cc
parse_in_session_inv c (id ∷ bytes) m e =
    subst
      (λ x. (x.command_type ≡ c) × (tail_bytes x ≡ (id ∷ bytes)) × HasParts true x.session_id x.mac)
      same (refl, unfold tail_bytes in ap (λ l. id ∷ l) (take-append-drop n bytes), (tests.0, size))
  where
    n : ℕ
    n = length bytes - 8

    tests : (id ≤ 16) × (8 ≤ length bytes)
    tests = in_session_tests c id bytes m e

    size : length (drop n bytes) ≡ 8
    size = omega (arith, length-drop n bytes, tests)

    read : CommandMessage
    read = record {
      command_type = c;
      session_id = some id;
      data_bytes = take n bytes;
      mac = some (drop n bytes);
    }

    parsed : parse_in_session c (id ∷ bytes) ≡ ok read
    parsed =
        rw (take-append-drop n bytes) at
          (parse_in_session_ok c id (take n bytes) (drop n bytes) tests.0 size)

    same : read ≡ m
    same = cc (parsed, e)

parse_in_session-ne-panic : (c : CommandCode) (bytes : List ℕ) → parse_in_session c bytes ≢ panic
unfolding parse_in_session Id.from_u8 Mac.from_slice
parse_in_session-ne-panic c [] e = cc
parse_in_session-ne-panic c (id ∷ bytes) e = ground (arith, length-drop (length bytes - 8) bytes)

pub body_ok :
    (c : CommandCode) (id : Option SessionId) (bytes : List ℕ) (mac : Option Mac)
    → HasParts (is_in_session c) id mac
    → parse_body c (id_bytes id ++ (bytes ++ mac_bytes mac))
      ≡ ok (record { command_type = c; session_id = id; data_bytes = bytes; mac = mac })
unfolding parse_body
body_ok CommandCode.authenticate_session (some id) bytes (some mac) h =
    parse_in_session_ok CommandCode.authenticate_session id bytes mac h.0 h.1
body_ok CommandCode.session_message (some id) bytes (some mac) h =
    parse_in_session_ok CommandCode.session_message id bytes mac h.0 h.1
body_ok CommandCode.authenticate_session none bytes mac h = absurd h
body_ok CommandCode.session_message none bytes mac h = absurd h
body_ok CommandCode.authenticate_session (some id) bytes none h = absurd h
body_ok CommandCode.session_message (some id) bytes none h = absurd h
body_ok CommandCode.unknown none bytes none h = rw (append-nil bytes)
body_ok _ none bytes none h = rw (append-nil bytes)
body_ok _ (some id) bytes mac h = absurd h
body_ok _ none bytes (some mac) h = absurd h

-- A command outside sessions: the body is the data.
abbrev outside : CommandCode → List ℕ → CommandMessage
outside c bytes = record { command_type = c; session_id = none; data_bytes = bytes; mac = none }

plain_inv :
    (c : CommandCode) (bytes : List ℕ) (m : CommandMessage)
    → outside c bytes ≡ m
    → HasParts (is_in_session c) none none
    → (m.command_type ≡ c) × (tail_bytes m ≡ bytes) × HasParts (is_in_session c) m.session_id m.mac
unfolding tail_bytes
plain_inv c bytes m e h =
    subst
      (λ x.
        (x.command_type ≡ c)
        × (tail_bytes x ≡ bytes)
        × HasParts (is_in_session c) x.session_id x.mac)
      e (refl, append-nil bytes, h)

pub body_inv :
    (c : CommandCode) (bytes : List ℕ) (m : CommandMessage)
    → parse_body c bytes ≡ ok m
    → (m.command_type ≡ c) × (tail_bytes m ≡ bytes) × HasParts (is_in_session c) m.session_id m.mac
unfolding parse_body
body_inv CommandCode.authenticate_session bytes m e = parse_in_session_inv _ bytes m e
body_inv CommandCode.session_message bytes m e = parse_in_session_inv _ bytes m e
body_inv CommandCode.unknown bytes m e = plain_inv CommandCode.unknown bytes m (cc e) tt
body_inv c bytes m e = plain_inv _ bytes m (cc e) tt

pub body-ne-panic : (c : CommandCode) (bytes : List ℕ) → parse_body c bytes ≢ panic
unfolding parse_body
body-ne-panic CommandCode.authenticate_session bytes = parse_in_session-ne-panic _ bytes
body-ne-panic CommandCode.session_message bytes = parse_in_session-ne-panic _ bytes
body-ne-panic CommandCode.unknown bytes = λ e. cc
body-ne-panic _ bytes = λ e. cc

measured :
    (b : Bool) (id : Option SessionId) (bytes : List ℕ) (mac : Option Mac)
    → HasParts b id mac
    → length (id_bytes id ++ (bytes ++ mac_bytes mac))
      ≡ length bytes + (elim id [ none ↦ 0 | some _ ↦ 1 ]) + (elim mac [ none ↦ 0 | some _ ↦ 8 ])
measured true (some id) bytes (some mac) h = omega (arith, length-append bytes mac, h)
measured false none bytes none h = rw (append-nil bytes) (omega arith)
measured true none bytes mac h = absurd h
measured true (some id) bytes none h = absurd h
measured false (some id) bytes mac h = absurd h
measured false none bytes (some mac) h = absurd h

pub length-tail_bytes :
    (m : CommandMessage)
    → HasParts (is_in_session m.command_type) m.session_id m.mac
    → length (tail_bytes m) ≡ len m
unfolding tail_bytes len
length-tail_bytes m h = measured (is_in_session m.command_type) m.session_id m.data_bytes m.mac h
