-- ===== src/Object/Info.antt =====
-- What names an object and what is known of it (src/object/handle.rs, info.rs, entry.rs, put.rs,
-- generate.rs). Numbers of objects have two bytes, capabilities eight, sequence numbers one.
use yubihsm_rs.Base.{ℕ, ◌+◌, ◌*◌}
use yubihsm_rs.Algorithm.Any.{Algorithm}
use yubihsm_rs.Domain.{Domain}
use yubihsm_rs.Object.Label.{Label}
use yubihsm_rs.Object.Origins.{Origin}
use yubihsm_rs.Object.Types
use yubihsm_rs.Object.Types.{ObjectType}

-- The bits of `Capability`, all 64 of which have a name.
abbrev pub Capability : Type 0
Capability = ℕ

pub record Handle : Type 0 where
  pub object_id : ℕ
  pub object_type : ObjectType

-- The place of a handle in the order that is derived for it: by number, then by type.
unfoldable pub rank : ℕ → ObjectType → ℕ
unfolding Types.to_u8
rank object_id object_type = object_id * 256 + Types.to_u8 object_type

pub record Info : Type 0 where
  pub capabilities : Capability
  pub object_id : ℕ
  pub length : ℕ
  pub domains : Domain
  pub object_type : ObjectType
  pub algorithm : Algorithm
  pub sequence : ℕ
  pub origin : Origin
  pub label : Label
  pub delegated_capabilities : Capability

pub record Entry : Type 0 where
  pub object_id : ℕ
  pub object_type : ObjectType
  pub sequence : ℕ

-- `put::Params`, and `generate::Params`, whose `key_id` is the `id`.
pub record Params : Type 0 where
  pub id : ℕ
  pub label : Label
  pub domains : Domain
  pub capabilities : Capability
  pub algorithm : Algorithm
