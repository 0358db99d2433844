-- ===== src/Api/Fleet/Backends.antt =====
-- crates/ocf-api/src/fleet.rs: which backends a load balancer's selector resolves to.
use open_compute_fabric_rs.Prelude.{
  ◌≡◌, ◌↔◌, refl, inl, inr, String, true, false, List, [], ◌∷◌, Option, none, some, Option-cases,
  is_empty, Member, here, there, Member-cons, Member-filter, Member-of_filter,
}
use open_compute_fabric_rs.Prelude.Assoc.{Assoc}
use open_compute_fabric_rs.Prelude.Float.{F64}
use open_compute_fabric_rs.Core.Scope.{ResourceId, Scope}
use open_compute_fabric_rs.Core.Metadata.{matches_labels}
use open_compute_fabric_rs.LoadBalancer.Model.{Backend}
use open_compute_fabric_rs.Runtime.Workload.{Workload}
use open_compute_fabric_rs.Api.Fleet.{stamped, backend_at, backend_of, backends_of, lb_backends_for}

abbrev pub unwrap_or : {A : Type 0} → Option A → A → A
unwrap_or none a = a
unwrap_or (some x) a = x

module _ {f : F64} (node_lb_addr : ResourceId → Option String) (node_scope : ResourceId → Scope)
    (node_latency : ResourceId → Option f.Carrier) where
  -- The workload runs on a node that has a load-balancer address, and the backend stands for it
  -- there: with that address, the node's scope, its measured latency (or 0), no load and no region.
  pub record Fronts (w : Workload) (b : Backend f) : Type 0 where
    pub node : ResourceId
    pub hosted : w.node ≡ some node
    pub addressed : node_lb_addr node ≡ some b.address
    pub workload : b.workload_id ≡ w.metadata.id
    pub scoped : b.scope ≡ node_scope node
    pub measured : b.latency_ms ≡ unwrap_or (node_latency node) f.zero
    pub idle : b.load ≡ f.zero
    pub unplaced : b.geo ≡ none

  abbrev At : Workload → Option ResourceId → Backend f → Type 0
  At w placed b = backend_of node_lb_addr node_scope node_latency w placed ≡ some b

  abbrev image : Workload → ResourceId → String → Backend f
  image w node addr = record {
    workload_id = w.metadata.id;
    address = addr;
    scope = node_scope node;
    load = f.zero;
    latency_ms = unwrap_or (node_latency node) f.zero;
    geo = none;
  }

  stamped_lem :
      (b : Backend f) (rtt : Option f.Carrier)
      → stamped node_lb_addr node_scope node_latency b rtt
        ≡ record b { latency_ms = unwrap_or rtt b.latency_ms }
  unfolding stamped
  stamped_lem b none = refl
  stamped_lem b (some rtt) = refl

  backend_at_lem :
      (w : Workload) (node : ResourceId) (addr : String)
      → backend_at node_lb_addr node_scope node_latency w node addr ≡ image w node addr
  unfolding backend_at
  backend_at_lem w node addr = stamped_lem _ (node_latency node)

  At-image :
      (w : Workload) (b : Backend f)
      → At w w.node b
      → (node : ResourceId) × (addr : String) × (w.node ≡ some node)
        × (node_lb_addr node ≡ some addr)
        × (b ≡ image w node addr)
  unfolding backend_of
  At-image w b h = elim (Option-cases w.node) [
    | inl idle ↦ absurd (cc (rw (idle, backend_of) at h))
    | inr (node, hosted) ↦ elim (Option-cases (node_lb_addr node)) [
      | inl away ↦ absurd (cc (rw (hosted, away, backend_of) at h))
      | inr (addr, there_) ↦ (
        node,
        addr,
        hosted,
        there_,
        cc (backend_at_lem w node addr, rw (hosted, there_, backend_of) at h),
      )
    ]
  ]

  At-Fronts : (w : Workload) (b : Backend f) → At w w.node b → Fronts w b
  At-Fronts w b h =
      let (node, addr, hosted, there_, e) = At-image w b h in
      record {
        node = node;
        hosted = hosted;
        addressed = cc;
        workload = cc;
        scoped = cc;
        measured = cc;
        idle = cc;
        unplaced = cc;
      }

  Fronts-At : (w : Workload) (b : Backend f) → Fronts w b → At w w.node b
  unfolding backend_of
  Fronts-At w b h =
      simp (h.hosted, h.addressed, backend_at_lem w h.node b.address, backend_of)
        (cc (h.workload, h.scoped, h.measured, h.idle, h.unplaced))

  backends_of_sound :
      (ws : List Workload) (b : Backend f)
      → Member b (backends_of node_lb_addr node_scope node_latency ws)
      → (w : Workload) × Member w ws × At w w.node b
  unfolding backends_of
  backends_of_sound [] b m = elim m [ ]
  backends_of_sound (w ∷ ws) b m =
      let rest = backends_of_sound ws b in
      elim (Option-cases (backend_of {f = f} node_lb_addr node_scope node_latency w w.node)) [
        | inl away ↦ let (v, n, e) = rest (rw (away, backends_of) at m) in (v, there n, e)
        | inr (c, e) ↦ elim (Member-cons (rw (e, backends_of) at m)) [
          | inl same ↦ (w, here refl, cc)
          | inr later ↦ let (v, n, q) = rest later in (v, there n, q)
        ]
      ]

  backends_of_complete :
      (ws : List Workload) {w : Workload} {b : Backend f}
      → Member w ws
      → At w w.node b
      → Member b (backends_of node_lb_addr node_scope node_latency ws)
  unfolding backends_of
  backends_of_complete [] m e = elim m [ ]
  backends_of_complete (w ∷ ws) {w = v} {b = b} (here same) e =
      let at : At w w.node b = cc (same, e) in rw (at, backends_of) (here refl)
  backends_of_complete (w ∷ ws) (there m) e =
      let rest = backends_of_complete ws m e in
      elim (Option-cases (backend_of {f = f} node_lb_addr node_scope node_latency w w.node)) [
        | inl away ↦ rw (away, backends_of) rest
        | inr (c, q) ↦ rw (q, backends_of) (there rest)
      ]

  -- A backend is among those of a selector exactly when the selector is not empty and a workload with
  -- all its labels runs on a node with a load-balancer address, of which the backend is the image.
  pub lb_backends_for_iff :
      (ws : List Workload) (selector : Assoc String String) (b : Backend f)
      → Member b (lb_backends_for node_lb_addr node_scope node_latency ws selector) ↔ (
          (is_empty selector ≡ false)
          × ((w : Workload) × Member w ws
              × (matches_labels w.metadata selector ≡ true)
              × Fronts w b))
  unfolding lb_backends_for
  lb_backends_for_iff ws [] b = ((λ m. elim m [ ]), λ (h, x). absurd (cc))
  lb_backends_for_iff ws (l ∷ ls) b = (
    (λ m.
        let (w, n, e) = backends_of_sound _ b m in
        let (known, good) = Member-of_filter (λ v. matches_labels v.metadata (l ∷ ls)) ws n in
        (refl, (w, known, good, At-Fronts w b e))),
    λ (h, (w, m, good, e)).
        backends_of_complete _ (Member-filter (λ v. matches_labels v.metadata (l ∷ ls)) m good)
          (Fronts-At w b e),
  )
