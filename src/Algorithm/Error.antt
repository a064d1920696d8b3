-- ===== src/Algorithm/Error.antt =====
-- Why an algorithm tag is refused (src/algorithm/error.rs).
pub data AlgorithmErrorKind : Type 0 where
  tag_invalid : AlgorithmErrorKind
