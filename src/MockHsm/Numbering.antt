-- ===== src/MockHsm/Numbering.antt =====
-- Numbers of new sessions in the simulated device (`create_session` of src/mockhsm/state.rs).
use yubihsm_rs.Base.{
  ℕ, ◌+◌, ◌<◌, ◌≤◌, ◌≡◌, refl, ◌∙◌, List, [], ◌∷◌, Option, none, some, false, ok, panic, arith, ltb,
  ==_refl, Bool-cases, Option-cases, inl, inr, if◌then◌else◌,
}
use yubihsm_rs.Base.Programs.{◌>>=◌, get, modify, lift, assert, pure}
use yubihsm_rs.Session.Id
use yubihsm_rs.Session.SecureChannel.Crypto.{Crypto}
use yubihsm_rs.MockHsm.Error.{ConnectorErrorKind}
use yubihsm_rs.MockHsm.Keys.{Keys}
use yubihsm_rs.MockHsm.Maps.{Map, lookup, insert, max_key, lookup-insert}
use yubihsm_rs.MockHsm.Objects as Objects
use yubihsm_rs.MockHsm.Objects.{Object}
use yubihsm_rs.MockHsm.Payload as Payload
use yubihsm_rs.Object.Types.{ObjectType}
use yubihsm_rs.Session.SecureChannel.Channel as Channel
use yubihsm_rs.Session.SecureChannel.Channel.{SecureChannel}
use yubihsm_rs.MockHsm.State as State
use yubihsm_rs.MockHsm.State.{State, HsmSession}

no_keys : {V : Type 0} (k : ℕ) (entries : Map V) → max_key entries ≡ none → lookup k entries ≡ none
unfolding lookup max_key
no_keys k [] e = refl
no_keys k ((j, v) ∷ entries) e = elim (Option-cases (max_key entries)) [
  | inl none_left ↦ ground (arith, none_left)
  | inr (n, largest) ↦ ground (arith, largest)
]

-- No key of a map is above its largest.
above_max :
    {V : Type 0} (k m : ℕ) (entries : Map V)
    → max_key entries ≡ some m
    → m < k
    → lookup k entries ≡ none
unfolding lookup max_key
above_max k m [] e h = refl
above_max k m ((j, v) ∷ entries) e h = elim (Option-cases (max_key entries)) [
  | inl none_left ↦ ground (arith, no_keys k entries none_left, none_left)
  | inr (n, largest) ↦ ground (arith, above_max k n entries largest, largest)
]

module _ (K : Keys) where
  -- The number of a new session: one above the largest there is, if that is at most 16.
  pub next_session_id-eq :
      (o : Option ℕ) (s : State K)
      → State.next_session_id K o s
        ≡ ((elim o [ none ↦ ok 0 | some id ↦ if ltb 16 (id + 1) then panic else ok (id + 1) ]), s)
  unfolding State.next_session_id Id.succ Id.from_u8 lift
  next_session_id-eq none s = refl
  next_session_id-eq (some id) s = elim (Bool-cases (ltb 16 (id + 1))) [
    | inl h ↦ rw h
    | inr h ↦ rw h
  ]

  -- If the largest number of a session is 16, no session is created any more: the device panics,
  -- whatever lower numbers are free, and its state stays as it is.
  pub create_session_exhausted :
      (c : Crypto) (key_id : ℕ) (host_challenge card_challenge : List ℕ) (s : State K)
      → max_key s.sessions ≡ some 16
      → State.create_session K c key_id host_challenge card_challenge s ≡ (panic, s)
  unfolding State.create_session ◌>>=◌ get
  create_session_exhausted c key_id host_challenge card_challenge s h =
      rw h (rw (next_session_id-eq (some 16) s))

  -- The number that comes next.
  abbrev pub next_number : Option ℕ → ℕ
  next_number none = 0
  next_number (some id) = id + 1

  next_session_id_ok :
      (o : Option ℕ) (s : State K)
      → next_number o ≤ 16
      → State.next_session_id K o s ≡ (ok (next_number o), s)
  next_session_id_ok none s h = next_session_id-eq none s
  next_session_id_ok (some id) s h = next_session_id-eq (some id) s ∙ rw below
    where
      below : ltb 16 (id + 1) ≡ false
      below = ground arith

  next_number-is_free :
      {V : Type 0} (entries : Map V) → lookup (next_number (max_key entries)) entries ≡ none
  next_number-is_free entries = elim (Option-cases (max_key entries)) [
    | inl empty ↦ no_keys _ entries empty
    | inr (m, largest) ↦ above_max _ m entries largest (rw largest (omega arith))
  ]

  pub create_session-creates :
      (c : Crypto) (key_id : ℕ) (host_challenge card_challenge : List ℕ) (s : State K)
      (object : Object K) (key : List ℕ) (channel : SecureChannel)
      → next_number (max_key s.sessions) ≤ 16
      → Objects.get_object K key_id ObjectType.authentication_key s.objects ≡ some object
      → Payload.as_authentication_key K object.payload ≡ some key
      → Channel.new c {E = ConnectorErrorKind}
          (next_number (max_key s.sessions))
          key
          host_challenge
          card_challenge
        ≡ ok channel
      → (lookup (next_number (max_key s.sessions)) s.sessions ≡ none)
        × (State.create_session K c key_id host_challenge card_challenge s ≡ (
          ok (State.new_session (next_number (max_key s.sessions)) card_challenge channel),
          record s {
            sessions =
                insert
                  (next_number (max_key s.sessions))
                  (State.new_session (next_number (max_key s.sessions)) card_challenge channel)
                  s.sessions;
          },
        ))
  unfolding State.create_session State.or_panic State.get_session State.session_found State.is_none
      ◌>>=◌ get modify lift assert pure
  create_session-creates c key_id host_challenge card_challenge s object key channel small found
        is_key derived =
      (
        next_number-is_free s.sessions,
        rw (next_session_id_ok (max_key s.sessions) s small) (
            rw found (
              rw is_key (
                rw derived (
                  rw (next_number-is_free s.sessions) (
                    rw
                      (lookup-insert (next_number (max_key s.sessions))
                        (next_number (max_key s.sessions))
                        (State.new_session (next_number (max_key s.sessions)) card_challenge
                          channel)
                        s.sessions)
                      (rw (==_refl (next_number (max_key s.sessions))))))))),
      )
