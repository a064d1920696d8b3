-- ===== src/Algorithm/Rsa.antt =====
-- Algorithms for RSA keys, of three kinds (src/rsa/algorithm.rs).
use yubihsm_rs.Base.{
  ℕ, ◌<◌, ◌≡◌, refl, ap, ◌∙◌, sym, ◌↔◌, Bool, true, ◌&&◌, Result, ok, err, ◌>>=◌, if◌then◌else◌,
  ◌==◌, ==_iff, leb,
}
use yubihsm_rs.Base.Tables.{holds_below, holds_below_at}
use yubihsm_rs.Algorithm.Error.{AlgorithmErrorKind, tag_invalid}
use yubihsm_rs.Algorithm.Oaep
use yubihsm_rs.Algorithm.Oaep.{OaepAlgorithm}
use yubihsm_rs.Algorithm.Pkcs1
use yubihsm_rs.Algorithm.Pkcs1.{Pkcs1Algorithm}
use yubihsm_rs.Algorithm.Pss
use yubihsm_rs.Algorithm.Pss.{PssAlgorithm}

pub data RsaAlgorithm : Type 0 where
  oaep : OaepAlgorithm → RsaAlgorithm
  pkcs1 : Pkcs1Algorithm → RsaAlgorithm
  pss : PssAlgorithm → RsaAlgorithm

-- The pattern `lo..=hi`.
abbrev pub in_range : ℕ → ℕ → ℕ → Bool
in_range lo hi byte = leb lo byte && leb byte hi

unfoldable pub to_u8 : RsaAlgorithm → ℕ
unfolding Oaep.to_u8 Pkcs1.to_u8 Pss.to_u8
to_u8 (oaep alg) = Oaep.to_u8 alg
to_u8 (pkcs1 alg) = Pkcs1.to_u8 alg
to_u8 (pss alg) = Pss.to_u8 alg

unfoldable pub from_u8 : ℕ → Result AlgorithmErrorKind RsaAlgorithm
unfolding Oaep.from_u8 Pkcs1.from_u8 Pss.from_u8
from_u8 tag =
    if in_range 0x01 0x04 tag
    then (do alg ← Pkcs1.from_u8 tag; ok (pkcs1 alg))
    else if in_range 0x05 0x08 tag
    then (do alg ← Pss.from_u8 tag; ok (pss alg))
    else if in_range 0x19 0x1c tag
    then (do alg ← Oaep.from_u8 tag; ok (oaep alg))
    else err tag_invalid

reads_back : ℕ → Bool
unfolding from_u8 to_u8
reads_back byte = elim (from_u8 byte) [ ok value ↦ to_u8 value == byte | _ ↦ true ]

pub from_u8-to_u8 : (value : RsaAlgorithm) → from_u8 (to_u8 value) ≡ ok value
unfolding from_u8 to_u8
from_u8-to_u8 (oaep OaepAlgorithm.sha1) = refl
from_u8-to_u8 (oaep _) = refl
from_u8-to_u8 (pkcs1 Pkcs1Algorithm.sha1) = refl
from_u8-to_u8 (pkcs1 _) = refl
from_u8-to_u8 (pss PssAlgorithm.sha1) = refl
from_u8-to_u8 (pss _) = refl

pub to_u8-from_u8 :
    (byte : ℕ) (value : RsaAlgorithm) → byte < 256 → from_u8 byte ≡ ok value → to_u8 value ≡ byte
to_u8-from_u8 byte value h e = (==_iff _ _).0 (unfold reads_back in rw (e, reads_back) at seen)
  where
    seen : reads_back byte ≡ true
    seen = holds_below_at 256 reads_back byte (unfold reads_back holds_below in refl) h

-- A byte is read as a value exactly when it is the byte that is written for the value.
pub from_u8_iff :
    (byte : ℕ) (value : RsaAlgorithm)
    → byte < 256
    → (from_u8 byte ≡ ok value) ↔ (to_u8 value ≡ byte)
from_u8_iff byte value h =
    (to_u8-from_u8 byte value h, λ e. sym (ap from_u8 e) ∙ from_u8-to_u8 value)
