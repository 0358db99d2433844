-- ===== src/Core/Examples.antt =====
-- crates/ocf-core: runs of the scopes and of the registry.
use open_compute_fabric_rs.Prelude.{ℕ, ◌≡◌, refl, ◌↔◌, true, false, [], ◌∷◌, string_eq}
use open_compute_fabric_rs.Core.Scope.{
  ResourceId, Scope, of_region, of_datacenter, of_rack, contains, level_ok,
}
use open_compute_fabric_rs.Core.Scope.Containment.{Covers, contains_iff}
use open_compute_fabric_rs.Core.Registry.{Registry}

abbrev us_rack : Scope
us_rack = of_rack "us" "dc1" "r1"

region_does_not_contain_other_region : contains (of_region "us") (of_datacenter "eu" "dc1") ≡ false
unfolding contains level_ok
region_does_not_contain_other_region = refl

contains_iff_example :
    (contains (of_region "us") us_rack ≡ true)
    ↔ ((r d k m : ResourceId) → Covers us_rack r d k m → Covers (of_region "us") r d k m)
contains_iff_example = contains_iff (of_region "us") us_rack

one_provider : Registry ℕ
one_provider = record { providers = ("docker", 3) ∷ [] }
