-- ===== src/Pgroup.antt =====
-- shared/pgroup.h and the data of shared/pgroup.c: peer groups, and how they share out checks.
pub mod Tables
pub mod Balance
pub mod Order
pub mod Active
pub mod Groups
pub mod Members
pub mod Reassign
pub mod Takeover
pub mod Mapping
pub mod Handled
pub mod Csstr
pub mod Tests
pub mod Shares
use monitor_merlin.Base.{ℕ, zero, suc, ◌+◌, Bool, Option, List, [], ◌∷◌}

-- The two kinds of objects that have checks.
pub data Kind : Type 0 where
  host_check service_check : Kind

-- `struct merlin_assigned_objects`
pub record Assigned : Type 0 where
  pub hosts : ℕ
  pub services : ℕ

abbrev pub amount : Kind → Assigned → ℕ
amount host_check a = a.hosts
amount service_check a = a.services

-- `a.hosts++` or `a.services++`
abbrev pub bump : Kind → Assigned → Assigned
bump host_check a = record a { hosts = a.hosts + 1 }
bump service_check a = record a { services = a.services + 1 }

-- A set of object ids: what `bitmap_isset` answers for it.
abbrev pub IdSet : Type 0
IdSet = ℕ → Bool

abbrev pub Rows : Type 0
Rows = List (List Assigned)
