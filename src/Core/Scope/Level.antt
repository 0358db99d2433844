-- ===== src/Core/Scope/Level.antt =====
-- crates/ocf-core/src/scope.rs: the granularity of a scope.
use open_compute_fabric_rs.Prelude.{ℕ}

pub data ScopeLevel : Type 0 where
  fleet region datacenter rack machine : ScopeLevel

-- The discriminants, by which the derived order compares.
abbrev pub depth : ScopeLevel → ℕ
depth ScopeLevel.fleet = 0
depth ScopeLevel.region = 1
depth ScopeLevel.datacenter = 2
depth ScopeLevel.rack = 3
depth ScopeLevel.machine = 4
