-- ===== src/Object/Error.antt =====
-- Why a field of an object is refused (src/object/error.rs).
pub data ObjectErrorKind : Type 0 where
  label_invalid origin_invalid type_invalid : ObjectErrorKind
