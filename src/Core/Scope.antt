-- ===== src/Core/Scope.antt =====
-- crates/ocf-core/src/scope.rs: a path from the fleet root down to a machine, and containment.
pub mod Level
pub mod Containment
use Level.{ScopeLevel}
use open_compute_fabric_rs.Prelude.{
  String, Bool, true, false, ◌&&◌, Option, none, some, ◌==◌, string_eq, if◌then◌else◌,
}
use open_compute_fabric_rs.Prelude.Assoc.{is_some}

-- `Id` is a transparent wrapper of a string.
abbrev pub ResourceId : Type 0
ResourceId = String

pub record Scope : Type 0 where
  pub region : Option ResourceId
  pub datacenter : Option ResourceId
  pub rack : Option ResourceId
  pub machine : Option ResourceId

abbrev pub fleet : Scope
fleet = record { region = none; datacenter = none; rack = none; machine = none }

abbrev pub of_region : ResourceId → Scope
of_region r = record fleet { region = some r }

abbrev pub of_datacenter : ResourceId → ResourceId → Scope
of_datacenter r d = record fleet { region = some r; datacenter = some d }

abbrev pub of_rack : ResourceId → ResourceId → ResourceId → Scope
of_rack r d k = record fleet { region = some r; datacenter = some d; rack = some k }

abbrev pub of_machine : ResourceId → ResourceId → ResourceId → ResourceId → Scope
of_machine r d k m = record {
  region = some r;
  datacenter = some d;
  rack = some k;
  machine = some m;
}

unfoldable pub level : Scope → ScopeLevel
level s =
    if is_some s.machine
    then ScopeLevel.machine
    else if is_some s.rack
    then ScopeLevel.rack
    else if is_some s.datacenter
    then ScopeLevel.datacenter
    else if is_some s.region
    then ScopeLevel.region
    else ScopeLevel.fleet

unfoldable pub level_ok : Option ResourceId → Option ResourceId → Bool
level_ok none child = true
level_ok (some p) none = false
level_ok (some p) (some c) = c == p

unfoldable pub contains : Scope → Scope → Bool
contains s other =
    level_ok s.region other.region
    && level_ok s.datacenter other.datacenter
    && level_ok s.rack other.rack
    && level_ok s.machine other.machine
