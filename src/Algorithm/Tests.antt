-- ===== src/Algorithm/Tests.antt =====
-- Algorithm identifiers on concrete bytes (src/algorithm.rs).
use yubihsm_rs.Base.{◌≡◌, ◌↔◌, ok, arith}
use yubihsm_rs.Algorithm.Hmac.{HmacAlgorithm}
use yubihsm_rs.Algorithm.Any.{Algorithm, from_u8, to_u8, algorithm_from_u8_iff}

algorithm_from_u8_iff_example :
    (from_u8 0x14 ≡ ok (Algorithm.hmac HmacAlgorithm.sha256))
    ↔ (to_u8 (Algorithm.hmac HmacAlgorithm.sha256) ≡ 0x14)
algorithm_from_u8_iff_example =
    algorithm_from_u8_iff 0x14 (Algorithm.hmac HmacAlgorithm.sha256) (omega arith)
