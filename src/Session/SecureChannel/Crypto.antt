-- ===== src/Session/SecureChannel/Crypto.antt =====
-- The primitives of the crates `aes`, `cbc` and `cmac`, which the channel calls.
use yubihsm_rs.Base.{ℕ, ◌+◌, ◌*◌, ◌/◌, ◌≡◌, Option, some, List, length}

pub record Crypto : Type 0 where
  -- AES-128-CMAC of a message under a key: a tag of 16 bytes.
  pub cmac : List ℕ → List ℕ → List ℕ
  -- AES-128 on one block.
  pub encrypt_block : List ℕ → List ℕ → List ℕ
  -- AES-128-CBC with ISO 7816 padding, from a key, an initial vector and a text. Reading back
  -- fails on bytes that are no whole blocks, or without the padding's mark.
  pub cbc_encrypt : List ℕ → List ℕ → List ℕ → List ℕ
  pub cbc_decrypt : List ℕ → List ℕ → List ℕ → Option (List ℕ)

-- What is documented of them.
pub record CryptoLaws (c : Crypto) : Type 0 where
  pub length-cmac : (key text : List ℕ) → length (c.cmac key text) ≡ 16
  pub cbc_decrypt-cbc_encrypt :
      (key iv text : List ℕ) → c.cbc_decrypt key iv (c.cbc_encrypt key iv text) ≡ some text
  pub length-cbc_encrypt :
      (key iv text : List ℕ) → length (c.cbc_encrypt key iv text) ≡ (length text / 16 + 1) * 16
