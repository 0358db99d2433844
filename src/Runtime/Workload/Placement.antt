-- ===== src/Runtime/Workload/Placement.antt =====
-- crates/ocf-runtime/src/workload.rs: the scopes that a placement permits.
use open_compute_fabric_rs.Prelude.{◌≡◌, ◌↔◌, true, some, arith, inl, inr, Option-cases}
use open_compute_fabric_rs.Core.Scope.{Scope, contains}
use open_compute_fabric_rs.Runtime.Workload.{Workload, permits_placement}

pub permits_placement_iff :
    (w : Workload) (target : Scope)
    → (permits_placement w target ≡ true)
      ↔ ((s : Scope) → w.placement ≡ some s → contains s target ≡ true)
unfolding permits_placement
permits_placement_iff w target = elim (Option-cases w.placement) [
  | inl free ↦ ((λ h s e. absurd (cc)), λ h. rw (free, permits_placement))
  | inr (s, scoped) ↦ ((λ h t e. ground arith), λ h. rw (scoped, permits_placement) (h s scoped))
]
