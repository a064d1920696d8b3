-- ===== src/Domain/Tests.antt =====
-- Tests of domains.
use yubihsm_rs.Base.{◌≡◌, refl, ok, err}
use yubihsm_rs.Domain.{at, domain_invalid, domain-at_lem}

at_last : at 16 ≡ ok 0x8000
unfolding at
at_last = refl

at_beyond : at 17 ≡ err domain_invalid
unfolding at
at_beyond = refl

domain-at_lem_example : at 3 ≡ ok 4
domain-at_lem_example = domain-at_lem 3
