-- ===== src/Session/SecureChannel/Channel.antt =====
-- The state of one end of a channel, and what both ends do with it
-- (src/session/securechannel.rs).
use yubihsm_rs.Base.{
  ℕ, ◌+◌, ◌^◌, Bool, true, false, List, ◌∷◌, ◌++◌, length, replicate, Result, ok, panic, ltb,
  if◌then◌else◌,
}
use yubihsm_rs.Base.Bytes.{u16_bytes, u32_bytes}
use yubihsm_rs.Base.Results.{◌>>=◌}
use yubihsm_rs.Session.Id.{SessionId}
use yubihsm_rs.Session.SecureChannel.Crypto.{Crypto}
use yubihsm_rs.Session.SecureChannel.Kdf.{
  derive, derive_key, from_challenges, from_slice, enc_half, mac_half, cryptogram_size,
}

-- `SecurityLevel`; `unauthenticated` is its `None`.
pub data SecurityLevel : Type 0 where
  unauthenticated authenticated terminated : SecurityLevel

abbrev pub level_eq : SecurityLevel → SecurityLevel → Bool
level_eq unauthenticated unauthenticated = true
level_eq authenticated authenticated = true
level_eq terminated terminated = true
level_eq _ _ = false

pub record SecureChannel : Type 0 where
  pub id : SessionId
  pub counter : ℕ
  pub security_level : SecurityLevel
  pub context : List ℕ
  pub enc_key : List ℕ
  pub mac_key : List ℕ
  pub rmac_key : List ℕ
  pub mac_chaining_value : List ℕ

abbrev pub max_commands_per_session : ℕ
max_commands_per_session = 0x10_0000

abbrev pub zero_block : List ℕ
zero_block = replicate 16 0

-- `terminate`: the keys are overwritten with zeros.
unfoldable pub terminate : SecureChannel → SecureChannel
terminate s = record s {
  security_level = terminated;
  enc_key = zero_block;
  mac_key = zero_block;
  rmac_key = zero_block;
}

-- The text under a MAC: the chaining value, the code, the length, the session and the data.
unfoldable pub mac_text : List ℕ → ℕ → ℕ → ℕ → List ℕ → List ℕ
mac_text chaining code length id text = chaining ++ (code ∷ (u16_bytes length ++ (id ∷ text)))

module _ (c : Crypto) where
  -- `compute_icv`: the counter in a block of zeros, encrypted.
  unfoldable pub compute_icv : List ℕ → ℕ → List ℕ
  compute_icv key counter = c.encrypt_block key (replicate 12 0 ++ u32_bytes counter)

  unfoldable pub new : {E : Type 0} → SessionId → List ℕ → List ℕ → List ℕ → Result E SecureChannel
  new id authentication_key host_challenge card_challenge = do
    let context = from_challenges host_challenge card_challenge
    enc_key ← derive_key c (enc_half authentication_key) 4 context
    mac_key ← derive_key c (mac_half authentication_key) 6 context
    rmac_key ← derive_key c (mac_half authentication_key) 7 context
    ok (record {
      id = id;
      counter = 0;
      security_level = unauthenticated;
      context = context;
      enc_key = enc_key;
      mac_key = mac_key;
      rmac_key = rmac_key;
      mac_chaining_value = zero_block;
    })

  unfoldable pub card_cryptogram : {E : Type 0} → SecureChannel → Result E (List ℕ)
  card_cryptogram s = do
    result_bytes ← derive c s.mac_key 0 s.context cryptogram_size
    from_slice result_bytes

  unfoldable pub host_cryptogram : {E : Type 0} → SecureChannel → Result E (List ℕ)
  host_cryptogram s = do
    result_bytes ← derive c s.mac_key 1 s.context cryptogram_size
    from_slice result_bytes

-- `increment_counter`: the addition is checked, on a `u32`.
unfoldable pub increment_counter :
    {E : Type 0} → SecureChannel → Result E (Unit {0}) × SecureChannel
increment_counter s =
    if ltb (s.counter + 1) (2 ^ 32)
    then (ok tt, record s { counter = s.counter + 1 })
    else (panic, s)
