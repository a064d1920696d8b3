-- ===== src/Session/Error.antt =====
-- Why an operation of a session fails (src/session/error.rs).
pub data SessionErrorKind : Type 0 where
  authentication_error closed_error command_limit_exceeded create_failed : SessionErrorKind
  device_error mismatch_error protocol_error response_error verify_failed : SessionErrorKind
