-- ===== src/Command/Error.antt =====
-- Why a command code is refused (src/command/error.rs).
pub data CommandErrorKind : Type 0 where
  code_invalid : CommandErrorKind
