-- ===== src/Session/Id.antt =====
-- Session numbers (src/session/id.rs). An `Id` is the byte that it holds.
use yubihsm_rs.Base.{ℕ, ◌+◌, Result, ok, err, ltb, if◌then◌else◌}
use yubihsm_rs.Session.Error.{SessionErrorKind, protocol_error}

abbrev pub SessionId : Type 0
SessionId = ℕ

abbrev pub max_session_id : ℕ
max_session_id = 16

unfoldable pub from_u8 : ℕ → Result SessionErrorKind SessionId
from_u8 id = if ltb max_session_id id then err protocol_error else ok id

-- The `u8` addition cannot overflow: an `Id` is at most 16.
unfoldable pub succ : SessionId → Result SessionErrorKind SessionId
unfolding from_u8
succ id = from_u8 (id + 1)
