-- ===== src/Session/SecureChannel/Handshake.antt =====
-- How a channel is opened and authenticated (src/session/securechannel.rs, src/session.rs,
-- src/mockhsm/state.rs): both ends derive keys from the challenges, the host checks the card's
-- cryptogram and the card checks the host's.
use yubihsm_rs.Base.{
  ℕ, ◌*◌, ◌/◌, ◌%◌, ◌++◌, ◌∷◌, drop, replicate, ◌≤◌, ◌≡◌, ◌↔◌, ap, List, length, ok, err, arith,
  Result, length-take, take, bytes_eq, bytes_eq_refl, bytes_eq→eq, if◌then◌else◌, length-drop, inl,
  inr, Bool-cases, ◌>>=◌,
}
use yubihsm_rs.Base.Bytes.{u16_bytes}
use yubihsm_rs.Session.Error.{SessionErrorKind, authentication_error}
use yubihsm_rs.Session.SecureChannel.Exchange.{Ends}
use yubihsm_rs.Session.SecureChannel.Crypto.{Crypto, CryptoLaws}
use yubihsm_rs.Session.SecureChannel.Kdf.{
  derive, derive_key, derivation_data, from_challenges, from_slice, enc_half, mac_half,
  cryptogram_size,
}
use yubihsm_rs.Session.SecureChannel.Channel.{
  SecureChannel, unauthenticated, new, card_cryptogram, host_cryptogram,
}

module _ (c : Crypto) where
  -- The end of `SecureChannel::open`: the host compares the card's cryptogram.
  unfoldable pub verify_card : SecureChannel → List ℕ → Result SessionErrorKind SecureChannel
  verify_card channel cryptogram = do
    expected ← card_cryptogram c channel
    if bytes_eq expected cryptogram then ok channel else err authentication_error

  -- The keys and cryptograms, in closed form: the CMAC of eleven zeros, the constant, a zero, the
  -- length in bits in two bytes, a one and the context, cut to the length.
  abbrev pub derived : List ℕ → ℕ → List ℕ → ℕ → List ℕ
  derived key constant context n = take n (
      c.cmac key (replicate 11 0 ++ (constant ∷ 0 ∷ n * 8 / 256 % 256 ∷ n * 8 % 256 ∷ 1 ∷ context)))

  -- A new channel: the first half of the key gives its encryption key, the second half its MAC keys.
  abbrev pub fresh : ℕ → List ℕ → List ℕ → List ℕ → SecureChannel
  fresh id key host_challenge card_challenge = record {
    id = id;
    counter = 0;
    security_level = unauthenticated;
    context = host_challenge ++ card_challenge;
    enc_key = derived (take 16 key) 4 (host_challenge ++ card_challenge) 16;
    mac_key = derived (drop 16 key) 6 (host_challenge ++ card_challenge) 16;
    rmac_key = derived (drop 16 key) 7 (host_challenge ++ card_challenge) 16;
    mac_chaining_value = replicate 16 0;
  }

  -- The card makes its end and its cryptogram, the host makes its own end and compares.
  unfoldable pub open_ends : ℕ → List ℕ → List ℕ → List ℕ → List ℕ → Result SessionErrorKind Ends
  open_ends id host_key card_key host_challenge card_challenge = do
    card ← new c id card_key host_challenge card_challenge
    cryptogram ← card_cryptogram c card
    channel ← new c id host_key host_challenge card_challenge
    host ← verify_card channel cryptogram
    ok (record { host = host; card = card })

module _ (c : Crypto) (laws : CryptoLaws c) where
  pub derive_ok :
      {E : Type 0} (key : List ℕ) (constant : ℕ) (context : List ℕ) (n : ℕ)
      → length key ≡ 16
      → n ≤ 16
      → derive c {E = E} key constant context n ≡ ok (derived c key constant context n)
  unfolding derive derivation_data u16_bytes
  derive_ok key constant context n h k = ground arith

  length-cut_tag : (key text : List ℕ) (n : ℕ) → n ≤ 16 → length (take n (c.cmac key text)) ≡ n
  length-cut_tag key text n h =
      omega (arith, length-take n (c.cmac key text), laws.length-cmac key text)

  pub length-derived :
      (key : List ℕ) (constant : ℕ) (context : List ℕ) (n : ℕ)
      → n ≤ 16
      → length (derived c key constant context n) ≡ n
  length-derived key constant context n h = length-cut_tag key _ n h

  pub new_ok :
      {E : Type 0} (id : ℕ) (key host_challenge card_challenge : List ℕ)
      → length key ≡ 32
      → new c {E = E} id key host_challenge card_challenge
        ≡ ok (fresh c id key host_challenge card_challenge)
  unfolding new derive_key from_challenges enc_half mac_half
  new_ok {E = E} id key host_challenge card_challenge h = rw (
    derive_ok {E = E} (take 16 key) 4 (host_challenge ++ card_challenge) 16 enc (omega arith),
    derive_ok {E = E} (drop 16 key) 6 (host_challenge ++ card_challenge) 16 mac (omega arith),
    derive_ok {E = E} (drop 16 key) 7 (host_challenge ++ card_challenge) 16 mac (omega arith),
  )
    where
      enc : length (take 16 key) ≡ 16
      enc = omega (arith, length-take 16 key)

      mac : length (drop 16 key) ≡ 16
      mac = omega (arith, length-drop 16 key)

  cryptogram_ok :
      {E : Type 0} (s : SecureChannel) (constant : ℕ)
      → length s.mac_key ≡ 16
      → (derive c {E = E} s.mac_key constant s.context cryptogram_size >>= from_slice)
        ≡ ok (derived c s.mac_key constant s.context 8)
  cryptogram_ok {E = E} s constant h =
      rw (derive_ok {E = E} s.mac_key constant s.context 8 h (omega arith))
        (unfold from_slice in ground (arith, length-derived s.mac_key constant s.context 8))

  pub card_cryptogram_ok :
      {E : Type 0} (s : SecureChannel)
      → length s.mac_key ≡ 16
      → card_cryptogram c {E = E} s ≡ ok (derived c s.mac_key 0 s.context 8)
  unfolding card_cryptogram
  card_cryptogram_ok s h = cryptogram_ok s 0 h

  pub host_cryptogram_ok :
      {E : Type 0} (s : SecureChannel)
      → length s.mac_key ≡ 16
      → host_cryptogram c {E = E} s ≡ ok (derived c s.mac_key 1 s.context 8)
  unfolding host_cryptogram
  host_cryptogram_ok s h = cryptogram_ok s 1 h

  -- A host whose MAC key has 16 bytes accepts a cryptogram exactly if it is the one that it derives
  -- itself, and then keeps its channel.
  pub verify_card_iff :
      (s t : SecureChannel) (cryptogram : List ℕ)
      → length s.mac_key ≡ 16
      → (verify_card c s cryptogram ≡ ok t)
        ↔ ((card_cryptogram c {E = SessionErrorKind} s ≡ ok cryptogram) × (s ≡ t))
  unfolding verify_card
  verify_card_iff s t cryptogram h =
      rw (card_cryptogram_ok {E = SessionErrorKind} s h)
        (elim (Bool-cases (bytes_eq (derived c s.mac_key 0 s.context 8) cryptogram)) [
          | inl e ↦ rw e (λ p. (ap ok (bytes_eq→eq _ _ e), cc), λ p. ap ok p.1)
          | inr e ↦ rw e (λ p. cc, λ p. cc (bytes_eq_refl cryptogram, p.0))
        ])
