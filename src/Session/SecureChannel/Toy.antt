-- ===== src/Session/SecureChannel/Toy.antt =====
-- A cipher and a MAC that are not secure, and satisfy what the channel needs of AES: the tests run
-- the channel with them.
use yubihsm_rs.Base.{
  ℕ, zero, suc, ◌+◌, ◌-◌, ◌*◌, ◌%◌, ◌≡◌, refl, Option, none, some, List, [], ◌∷◌, ◌++◌, length,
  replicate, arith, length-append, length-replicate, if◌then◌else◌, ◌==◌,
}
use yubihsm_rs.Session.SecureChannel.Crypto.{Crypto, CryptoLaws}

-- A sum that depends on the order of the bytes.
unfoldable pub checksum : List ℕ → ℕ
checksum [] = 1
checksum (x ∷ xs) = (x + 3 * checksum xs) % 251

-- The padding stands in front: zeros up to a mark.
unfoldable pub pad : List ℕ → List ℕ
pad text = replicate (15 - length text % 16) 0 ++ (0x80 ∷ text)

unfoldable pub unpad : List ℕ → Option (List ℕ)
unpad [] = none
unpad (x ∷ xs) = let rest = unpad xs in if x == 0x80 then some xs else rest

abbrev pub toy : Crypto
toy = record {
  cmac = λ key text. checksum (key ++ text) ∷ replicate 15 (checksum text);
  encrypt_block = λ key block. block;
  cbc_encrypt = λ key iv text. pad text;
  cbc_decrypt = λ key iv text. unpad text;
}

unpad-zeros : (n : ℕ) (text : List ℕ) → unpad (replicate n 0 ++ (0x80 ∷ text)) ≡ some text
unfolding unpad
unpad-zeros zero text = refl
unpad-zeros (suc n) text = unpad-zeros n text

pub toy-laws : CryptoLaws toy
toy-laws = record {
  length-cmac = λ key text. refl;
  cbc_decrypt-cbc_encrypt = λ key iv text. unfold pad in unpad-zeros (15 - length text % 16) text;
  length-cbc_encrypt = λ key iv text.
      unfold pad in
      omega (
        arith,
        length-append (replicate (15 - length text % 16) 0) (0x80 ∷ text),
        length-replicate {A = ℕ} (15 - length text % 16) 0,
      );
}
