-- ===== src/Session/Tests.antt =====
-- Session numbers on concrete bytes (src/session/id.rs).
use yubihsm_rs.Base.{ℕ}

abbrev number : ℕ
number = 17
