-- ===== src/Response/Error.antt =====
-- Why a response code is refused (src/response/error.rs).
pub data ResponseErrorKind : Type 0 where
  code_invalid : ResponseErrorKind
