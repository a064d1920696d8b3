-- ===== src/Response/Message/Parts.antt =====
-- The optional parts of a response's frame (src/response/message.rs): the session number in front
-- and the MAC behind.
use yubihsm_rs.Base.{
  ℕ, ◌-◌, ◌≤◌, ◌<◌, ◌^◌, Bool-cases, inl, inr, ◌∙◌, ◌≡◌, ◌≢◌, ◌↔◌, refl, Option, none, some, List,
  [], ◌∷◌, ◌++◌, length, Result, ok, panic, arith, take_append, drop_append, length-append,
  take-append-drop, length-drop, Bool, true, false, append-nil,
}
use yubihsm_rs.Command.Code.{CommandCode}
use yubihsm_rs.Command.Message.{id_bytes, mac_bytes}
use yubihsm_rs.Response.Code.{ResponseCode}
use yubihsm_rs.Session.Id
use yubihsm_rs.Session.Id.{SessionId}
use yubihsm_rs.Session.Mac
use yubihsm_rs.Session.Mac.{Mac}
use yubihsm_rs.Session.Error.{SessionErrorKind}
use yubihsm_rs.Response.Message.{
  ResponseMessage, first_id, split_session_id, split_mac, last_mac, len, has_session_id, has_rmac,
}

abbrev pub HasId : Bool → Option SessionId → Type 0
HasId true (some id) = id ≤ Id.max_session_id
HasId false none = Unit
HasId _ _ = ⊥

abbrev pub HasMac : Bool → Option Mac → Type 0
HasMac true (some mac) = length mac ≡ 8
HasMac false none = Unit
HasMac _ _ = ⊥

-- A response that a frame can hold: it has a session number and a MAC exactly where its code wants
-- them, its length fits the two bytes of the header, and its code has a byte of its own.
pub record IsWellFormed (m : ResponseMessage) : Type 0 where
  pub own_byte : m.code ≢ ResponseCode.success CommandCode.hsm_initialization
  pub numbered : HasId (has_session_id m.code) m.session_id
  pub signed : HasMac (has_rmac m.code) m.mac
  pub short : len m < 2 ^ 16

abbrev Results : Type 0 → Type 0
Results A = Result SessionErrorKind A

abbrev mac_read : Option Mac × List ℕ → Results (Option Mac × List ℕ)
mac_read r = ok r

first_id_iff :
    (bytes : List ℕ) (id : Option SessionId) (rest : List ℕ)
    → (first_id bytes ≡ ok (id, rest)) ↔ (HasId true id × (id_bytes id ++ rest ≡ bytes))
unfolding first_id Id.from_u8
first_id_iff [] none rest = (λ e. cc, λ p. absurd p.0)
first_id_iff [] (some i) rest = (λ e. cc, λ p. cc (p.1))
first_id_iff (b ∷ bytes) none rest = (λ e. ground arith, λ p. absurd p.0)
first_id_iff (b ∷ bytes) (some i) rest = (λ e. ground arith, λ p. ground arith)

no_id_iff :
    (bytes : List ℕ) (id : Option SessionId) (rest : List ℕ)
    → (same : Results (Option SessionId × List ℕ)) → same ≡ ok (none, bytes)
    → (same ≡ ok (id, rest)) ↔ (HasId false id × (id_bytes id ++ rest ≡ bytes))
no_id_iff bytes none rest same h = (λ e. (tt, cc), λ p. cc (p.1))
no_id_iff bytes (some i) rest same h = (λ e. cc, λ p. absurd p.0)

pub split_session_id_iff :
    (code : ResponseCode) (bytes : List ℕ) (id : Option SessionId) (rest : List ℕ)
    → (split_session_id code bytes ≡ ok (id, rest))
      ↔ (HasId (has_session_id code) id × (id_bytes id ++ rest ≡ bytes))
unfolding split_session_id
split_session_id_iff code bytes id rest = elim (Bool-cases (has_session_id code)) [
  | inl e ↦ rw e (first_id_iff bytes id rest)
  | inr e ↦ rw e (no_id_iff bytes id rest _ refl)
]

last_mac_ok :
    (bytes : List ℕ) (mac : List ℕ)
    → length mac ≡ 8
    → last_mac (bytes ++ mac) ≡ ok (some mac, bytes)
unfolding last_mac Mac.from_slice
last_mac_ok bytes mac h = ground (
  arith,
  length-append bytes mac,
  take_append (length (bytes ++ mac) - 8) bytes mac,
  drop_append (length (bytes ++ mac) - 8) bytes mac,
)

last_mac_inv :
    (rest : List ℕ) (mac : Option Mac) (bytes : List ℕ)
    → last_mac rest ≡ ok (mac, bytes)
    → HasMac true mac × (bytes ++ mac_bytes mac ≡ rest)
unfolding last_mac Mac.from_slice
last_mac_inv rest none bytes e = ground (arith, length-drop (length rest - 8) rest)
last_mac_inv rest (some mac) bytes e =
    ground (arith, take-append-drop (length rest - 8) rest, length-drop (length rest - 8) rest)

pub split_mac_ok :
    (code : ResponseCode) (bytes : List ℕ) (mac : Option Mac)
    → HasMac (has_rmac code) mac
    → split_mac code (bytes ++ mac_bytes mac) ≡ ok (mac, bytes)
unfolding split_mac
split_mac_ok code bytes mac h = elim (Bool-cases (has_rmac code)) [
  | inl e ↦ rw e (with_mac mac (rw e at h))
  | inr e ↦ rw e (without mac (rw e at h))
]
  where
    with_mac : (m : Option Mac) → HasMac true m → last_mac (bytes ++ mac_bytes m) ≡ ok (m, bytes)
    with_mac (some m) p = last_mac_ok bytes m p
    with_mac none p = absurd p

    without :
        (m : Option Mac) → HasMac false m → ok (none, bytes ++ mac_bytes m) ≡ mac_read (m, bytes)
    without none p = rw (append-nil bytes)
    without (some m) p = absurd p

pub split_mac_inv :
    (code : ResponseCode) (rest : List ℕ) (mac : Option Mac) (bytes : List ℕ)
    → split_mac code rest ≡ ok (mac, bytes)
    → HasMac (has_rmac code) mac × (bytes ++ mac_bytes mac ≡ rest)
split_mac_inv code rest mac bytes e = elim (Bool-cases (has_rmac code)) [
  | inl b ↦ rw b (last_mac_inv rest mac bytes (unfold split_mac in rw b at e))
  | inr b ↦ rw b (without mac (unfold split_mac in rw b at e))
]
  where
    without :
        (m : Option Mac)
        → mac_read (none, rest) ≡ ok (m, bytes)
        → HasMac false m × (bytes ++ mac_bytes m ≡ rest)
    without none p = (tt, append-nil bytes ∙ cc p)
    without (some m) p = cc

pub split_mac-ne-panic : (code : ResponseCode) (rest : List ℕ) → split_mac code rest ≢ panic
unfolding split_mac last_mac Mac.from_slice
split_mac-ne-panic code rest e = ground (arith, length-drop (length rest - 8) rest)

pub split_session_id-ne-panic :
    (code : ResponseCode) (bytes : List ℕ) → split_session_id code bytes ≢ panic
unfolding split_session_id first_id Id.from_u8
split_session_id-ne-panic code [] e = ground arith
split_session_id-ne-panic code (b ∷ bytes) e = ground arith
