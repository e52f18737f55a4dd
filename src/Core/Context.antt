-- ===== src/Core/Context.antt =====
-- backend/src/core/context.py: the actor of a call. Identifiers are 128-bit numbers, in which the
-- order of `str(uuid)` is that of the numbers.
use onwlms.Prelude.{ℕ, String, List}

abbrev pub Uuid : Type 0
Uuid = ℕ

pub record PlatformActorContext : Type 0 where
  pub subject_id : Uuid
  pub correlation_id : String
  pub permissions : List String

pub record TenantActorContext : Type 0 where
  pub subject_id : Uuid
  pub organization_id : Uuid
  pub membership_id : Uuid
  pub correlation_id : String
  pub permissions : List String
