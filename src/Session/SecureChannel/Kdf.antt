-- ===== src/Session/SecureChannel/Kdf.antt =====
-- Key derivation and the data that it works on (src/session/securechannel/kdf.rs, context.rs,
-- cryptogram.rs; the key halves of src/authentication/key.rs).
use yubihsm_rs.Base.{
  ℕ, ◌*◌, List, ◌∷◌, ◌++◌, length, take, drop, replicate, Result, ok, panic, ◌>>◌, assert, leb,
  ◌==◌, if◌then◌else◌,
}
use yubihsm_rs.Base.Bytes.{u16_bytes}
use yubihsm_rs.Session.SecureChannel.Crypto.{Crypto}

abbrev pub key_size : ℕ
key_size = 16

abbrev pub cryptogram_size : ℕ
cryptogram_size = 8

-- `Context::from_challenges`: the two challenges, eight bytes each, the host's first.
unfoldable pub from_challenges : List ℕ → List ℕ → List ℕ
from_challenges host_challenge card_challenge = host_challenge ++ card_challenge

-- The halves of an authentication key of 32 bytes.
unfoldable pub enc_half : List ℕ → List ℕ
enc_half key = take 16 key

unfoldable pub mac_half : List ℕ → List ℕ
mac_half key = drop 16 key

-- `Cryptogram::from_slice`
unfoldable pub from_slice : {E : Type 0} → List ℕ → Result E (List ℕ)
from_slice slice = if length slice == cryptogram_size then ok slice else panic

-- The 32 bytes that are authenticated: eleven zeros, the constant, a zero, the length in bits,
-- the counter 1, the context.
unfoldable pub derivation_data : ℕ → List ℕ → ℕ → List ℕ
derivation_data derivation_constant context output_len =
    replicate 11 0 ++ (derivation_constant ∷ 0 ∷ (u16_bytes (output_len * 8) ++ (1 ∷ context)))

module _ (c : Crypto) where
  unfoldable pub derive : {E : Type 0} → List ℕ → ℕ → List ℕ → ℕ → Result E (List ℕ)
  unfolding derivation_data
  derive mac_key derivation_constant context output_len = do
    assert (length mac_key == key_size)
    assert (leb output_len 16)
    ok (take output_len (c.cmac mac_key (derivation_data derivation_constant context output_len)))

  -- `derive_key` of securechannel.rs
  unfoldable pub derive_key : {E : Type 0} → List ℕ → ℕ → List ℕ → Result E (List ℕ)
  derive_key parent_key derivation_constant context =
      derive parent_key derivation_constant context key_size
