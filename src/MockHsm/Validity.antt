-- ===== src/MockHsm/Validity.antt =====
-- The state of the simulated device stays in order, whatever frames come (src/mockhsm).
use yubihsm_rs.Base.{
  ℕ, ◌≤◌, ◌≡◌, refl, sym, List, Option, none, some, Result, arith, Option-cases, inl, inr,
  Bool-cases, ltb, ◌+◌,
}
use yubihsm_rs.Base.Programs.{
  Keeps, keeps_rules, modify-Keeps, bind-Keeps, get-Keeps, assert-Keeps, lift-Keeps, modify, ◌>>=◌,
  get, pure, fail, lift,
}
use mathlib.Core.Path.{subst}
use yubihsm_rs.Session.Error.{SessionErrorKind}
use yubihsm_rs.Session.Id
use yubihsm_rs.Session.SecureChannel.Channel.{SecureChannel}
use yubihsm_rs.Session.SecureChannel.Crypto.{Crypto}
use yubihsm_rs.Session.SecureChannel.Host.{Channels}
use yubihsm_rs.MockHsm.Entries.{Every, insert-Every, remove-Every, found-Every}
use yubihsm_rs.MockHsm.Error.{ConnectorErrorKind}
use yubihsm_rs.MockHsm.Filing.{AreFiled}
use yubihsm_rs.MockHsm.Keys.{Keys}
use yubihsm_rs.MockHsm.Maps.{IsSorted, insert, insert-IsSorted, remove-IsSorted, lookup, max_key}
use yubihsm_rs.MockHsm.Objects.{OnObjects, default_objects}
use yubihsm_rs.MockHsm.State as State
use yubihsm_rs.MockHsm.State.{State, Hsm, HsmSession}

-- A session stands under its own number, which is at most 16.
abbrev pub IsNumbered : ℕ → HsmSession → Type 0
IsNumbered k session = (session.id ≡ k) × (k ≤ 16)

pub record IsValid {K : Keys} (s : State K) : Type 0 where
  pub objects_filed : AreFiled s.objects
  pub sessions_sorted : IsSorted s.sessions
  pub sessions_numbered : Every IsNumbered s.sessions

module _ {K : Keys} where
  pub on_objects-Keeps :
      {A : Type 0} (m : OnObjects K A) → Keeps AreFiled m → Keeps IsValid (State.on_objects K m)
  unfolding State.on_objects
  on_objects-Keeps m h = record {
    kept = λ s p. record {
      objects_filed = h.kept s.objects p.objects_filed;
      sessions_sorted = p.sessions_sorted;
      sessions_numbered = p.sessions_numbered;
    };
  }

  -- The options of the device are no part of what is in order.
  pub options-Keeps :
      (f : State K → State K)
      → ((s : State K) → ((f s).objects ≡ s.objects) × ((f s).sessions ≡ s.sessions))
      → Keeps {E = ConnectorErrorKind} (IsValid {K = K}) (modify f)
  options-Keeps f same = modify-Keeps f (λ s p. record {
    objects_filed = subst AreFiled (sym (same s).0) p.objects_filed;
    sessions_sorted = subst IsSorted (sym (same s).1) p.sessions_sorted;
    sessions_numbered = subst (Every IsNumbered) (sym (same s).1) p.sessions_numbered;
  })

  session_found-Keeps : (o : Option HsmSession) → Keeps IsValid (State.session_found K o)
  unfolding State.session_found
  session_found-Keeps none = search keeps_rules
  session_found-Keeps (some _) = search keeps_rules

  pub get_session-Keeps : (id : ℕ) → Keeps IsValid (State.get_session K id)
  unfolding State.get_session
  get_session-Keeps id = search (keeps_rules, session_found-Keeps)

  pub or_panic-Keeps :
      {A : Type 0} (m : Hsm K A) → Keeps IsValid m → Keeps IsValid (State.or_panic K m)
  unfolding State.or_panic
  or_panic-Keeps m h = record { kept = h.kept }

  written-IsValid :
      (id : ℕ) (session : HsmSession) (s : State K)
      → IsNumbered id session
      → IsValid s
      → IsValid (record s { sessions = insert id session s.sessions })
  written-IsValid id session s n p = record {
    objects_filed = p.objects_filed;
    sessions_sorted = insert-IsSorted id session s.sessions p.sessions_sorted;
    sessions_numbered = insert-Every IsNumbered id session s.sessions n p.sessions_numbered;
  }

  kept-Keeps :
      {A : Type 0} (id : ℕ) (session : HsmSession) (r : Result SessionErrorKind A × SecureChannel)
      → IsNumbered id session
      → Keeps IsValid (State.kept K id session r)
  unfolding State.kept
  kept-Keeps id session (r, channel) n =
      bind-Keeps _ _
        (modify-Keeps _ (λ s. written-IsValid id (record session { channel = channel }) s n))
        (λ _. search keeps_rules)

  -- The session that is found has its own number.
  get_session-then :
      {A : Type 0} (id : ℕ) (f : HsmSession → Hsm K A)
      → ((session : HsmSession) → IsNumbered id session → Keeps IsValid (f session))
      → Keeps IsValid (State.get_session K id >>= f)
  unfolding State.get_session State.session_found ◌>>=◌ get pure fail
  get_session-then id f h = record {
    kept = λ s p. elim (Option-cases (lookup id s.sessions)) [
      | inl missing ↦ rw missing p
      | inr (session, found) ↦ rw found (
          (h session (found-Every IsNumbered id s.sessions session p.sessions_numbered found)).kept
            s p)
    ];
  }

  pub on_channel-Keeps :
      {A : Type 0} (id : ℕ) (m : Channels A) → Keeps IsValid (State.on_channel K id m)
  unfolding State.on_channel
  on_channel-Keeps id m = get_session-then id _ (λ session n.
      bind-Keeps _ _ (kept-Keeps id session (m session.channel) n) (λ r. lift-Keeps _))

  pub removed-Keeps : (id : ℕ) → Keeps IsValid (State.close_session K id)
  unfolding State.close_session
  removed-Keeps id = bind-Keeps _ _ get-Keeps (λ s.
      bind-Keeps _ _
        (modify-Keeps _ (λ t p. record {
          objects_filed = p.objects_filed;
          sessions_sorted = remove-IsSorted id t.sessions p.sessions_sorted;
          sessions_numbered = remove-Every IsNumbered id t.sessions p.sessions_numbered;
        }))
        (λ _. assert-Keeps _))

  default_objects-AreFiled : AreFiled (default_objects K)
  unfolding default_objects
  default_objects-AreFiled = record { sorted = tt; filed = (refl, tt) }

  pub reset-IsValid : (s : State K) → IsValid (State.reset K s)
  unfolding State.reset
  reset-IsValid s = record {
    objects_filed = default_objects-AreFiled;
    sessions_sorted = tt;
    sessions_numbered = tt;
  }

  pub new-IsValid : IsValid (State.new K)
  unfolding State.new
  new-IsValid = record {
    objects_filed = default_objects-AreFiled;
    sessions_sorted = tt;
    sessions_numbered = tt;
  }

  -- A number that a session gets is at most 16.
  next_session_id-then :
      {A : Type 0} (o : Option ℕ) (f : ℕ → Hsm K A)
      → ((id : ℕ) → id ≤ 16 → Keeps IsValid (f id))
      → Keeps IsValid (State.next_session_id K o >>= f)
  unfolding State.next_session_id Id.succ Id.from_u8 ◌>>=◌ lift
  next_session_id-then none f h = h 0 (omega arith)
  next_session_id-then (some id) f h = elim (Bool-cases (ltb 16 (id + 1))) [
    | inl above ↦ record { kept = λ s p. rw above p }
    | inr below ↦ record { kept = λ s p. rw below ((h (id + 1) (ground arith)).kept s p) }
  ]

  pub create_session-Keeps :
      (c : Crypto) (key_id : ℕ) (host_challenge card_challenge : List ℕ)
      → Keeps IsValid (State.create_session K c key_id host_challenge card_challenge)
  unfolding State.create_session
  create_session-Keeps c key_id host_challenge card_challenge = bind-Keeps _ _ get-Keeps (λ s.
      next_session_id-then (max_key s.sessions) _ (λ id small.
        bind-Keeps _ _ (lift-Keeps _) (λ object. bind-Keeps _ _ (lift-Keeps _) (λ key.
          bind-Keeps _ _ (lift-Keeps _) (λ channel.
            bind-Keeps _ _
              (modify-Keeps _ (λ t.
                written-IsValid id (State.new_session id card_challenge channel) t
                  (unfold State.new_session in refl, small)))
              (λ _.
                bind-Keeps _ _ (assert-Keeps _) (λ _. or_panic-Keeps _ (get_session-Keeps id))))))))
