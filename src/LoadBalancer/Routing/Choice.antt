-- ===== src/LoadBalancer/Routing/Choice.antt =====
-- crates/ocf-loadbalancer/src/routing.rs: which backend each policy selects of those given, and the
-- candidates that the ingress scope leaves.
use open_compute_fabric_rs.Prelude.{
  ℕ, ◌%◌, ◌≡◌, refl, ap, subst, String, true, false, List, [], ◌∷◌, Option, none, some, arith,
  Member, Member-filter, Member-of_filter, Member-get_elem?, get_elem?_total, length,
  not_empty_of_Member, is_empty, filter, Bool-cases, inl, inr, Passing,
}
use open_compute_fabric_rs.Prelude.Float.{F64}
use open_compute_fabric_rs.Core.Scope.{Scope, contains}
use open_compute_fabric_rs.LoadBalancer.Model.{Backend, ClientContext, RoutingPolicy}
use open_compute_fabric_rs.LoadBalancer.Routing.{
  cmp_metric, pick_min_by, local_to, local_candidates, ingress_local_candidates, pick_round_robin,
  in_geo, geo_or_latency, pick_geo, pick, select_backend, same_geo,
}
use open_compute_fabric_rs.Prelude.Minimum.{Member-min_by, min_by-cons}

module _ (f : F64) where
  Member-local_candidates :
      (ingress : Option Scope) (bs : List (Backend f)) {b : Backend f}
      → Member b (local_candidates f ingress bs)
      → Member b bs
  unfolding local_candidates local_to
  Member-local_candidates none bs m = m
  Member-local_candidates (some s) bs m = elim (Bool-cases (is_empty (local_to f s bs))) [
    | inl e ↦ rw e at m
    | inr e ↦ (Member-of_filter (λ (b : Backend f). contains s b.scope) bs (rw e at m)).0
  ]

  local_candidates_some :
      (ingress : Option Scope) (bs : List (Backend f))
      → is_empty bs ≡ false
      → is_empty (local_candidates f ingress bs) ≡ false
  unfolding local_candidates
  local_candidates_some none bs h = h
  local_candidates_some (some s) bs h = elim (Bool-cases (is_empty (local_to f s bs))) [
    | inl e ↦ rw e h
    | inr e ↦ rw e e
  ]

  -- Where some backend is local, every candidate is.
  local_candidates_local :
      (ingress : Scope) (bs : List (Backend f)) {b : Backend f}
      → Passing (λ (c : Backend f). contains ingress c.scope) bs
      → Member b (local_candidates f (some ingress) bs)
      → contains ingress b.scope ≡ true
  unfolding local_candidates local_to
  local_candidates_local ingress bs p m =
      let test = λ (c : Backend f). contains ingress c.scope in
      let some_local : is_empty (filter test bs) ≡ false =
        not_empty_of_Member (Member-filter test p.1 p.2) in
      (Member-of_filter test bs (rw some_local at m)).1

  pick_min_by_total :
      (cs : List (Backend f)) (metric : Backend f → f.Carrier)
      → is_empty cs ≡ false
      → (b : Backend f) × (pick_min_by f cs metric ≡ some b)
  unfolding pick_min_by
  pick_min_by_total [] metric h = absurd (cc)
  pick_min_by_total (c ∷ cs) metric h = min_by-cons (cmp_metric f metric) c cs

  Member-pick_min_by :
      (cs : List (Backend f)) (metric : Backend f → f.Carrier) {b : Backend f}
      → pick_min_by f cs metric ≡ some b
      → Member b cs
  unfolding pick_min_by
  Member-pick_min_by cs metric h = Member-min_by (cmp_metric f metric) cs h

  pick_round_robin_total :
      (cursor : ℕ) (cs : List (Backend f))
      → is_empty cs ≡ false
      → (b : Backend f) × ((pick_round_robin f cursor cs).1 ≡ some b)
  unfolding pick_round_robin
  pick_round_robin_total cursor [] h = absurd (cc)
  pick_round_robin_total cursor (c ∷ cs) h =
      get_elem?_total (c ∷ cs) (cursor % length (c ∷ cs)) (omega arith)

  Member-pick_round_robin :
      (cursor : ℕ) (cs : List (Backend f)) {b : Backend f}
      → (pick_round_robin f cursor cs).1 ≡ some b
      → Member b cs
  unfolding pick_round_robin
  Member-pick_round_robin cursor [] h = absurd (cc)
  Member-pick_round_robin cursor (c ∷ cs) h = Member-get_elem? (c ∷ cs) (cursor % length (c ∷ cs)) h

  geo_or_latency_total :
      (geo : Option String) (cs : List (Backend f))
      → is_empty cs ≡ false
      → (b : Backend f) × (geo_or_latency f geo cs ≡ some b)
  unfolding geo_or_latency
  geo_or_latency_total none cs h = pick_min_by_total cs _ h
  geo_or_latency_total (some g) cs h = elim (Bool-cases (is_empty (in_geo f g cs))) [
    | inl e ↦ rw e (pick_min_by_total cs (λ b. b.latency_ms) h)
    | inr e ↦ rw e (pick_min_by_total (in_geo f g cs) (λ b. b.latency_ms) e)
  ]

  Member-geo_or_latency :
      (geo : Option String) (cs : List (Backend f)) {b : Backend f}
      → geo_or_latency f geo cs ≡ some b
      → Member b cs
  unfolding geo_or_latency in_geo
  Member-geo_or_latency none cs h = Member-pick_min_by cs _ h
  Member-geo_or_latency (some g) cs h = elim (Bool-cases (is_empty (in_geo f g cs))) [
    | inl e ↦ Member-pick_min_by cs (λ b. b.latency_ms) (rw e at h)
    | inr e ↦
        (Member-of_filter (λ (b : Backend f). same_geo b.geo g) cs
          (Member-pick_min_by (in_geo f g cs) (λ b. b.latency_ms) (rw e at h))).0
  ]

  pick_total :
      (policy : RoutingPolicy) (cursor : ℕ) (cs : List (Backend f)) (client : ClientContext)
      → is_empty cs ≡ false
      → (b : Backend f) × ((pick f policy cursor cs client).1 ≡ some b)
  unfolding pick pick_geo
  pick_total RoutingPolicy.round_robin cursor cs client h = pick_round_robin_total cursor cs h
  pick_total RoutingPolicy.least_load cursor cs client h = pick_min_by_total cs _ h
  pick_total RoutingPolicy.latency cursor cs client h = pick_min_by_total cs _ h
  pick_total RoutingPolicy.geo cursor cs client h = geo_or_latency_total client.geo cs h

  Member-pick :
      (policy : RoutingPolicy) (cursor : ℕ) (cs : List (Backend f)) (client : ClientContext)
      {b : Backend f}
      → (pick f policy cursor cs client).1 ≡ some b
      → Member b cs
  unfolding pick pick_geo
  Member-pick RoutingPolicy.round_robin cursor cs client h = Member-pick_round_robin cursor cs h
  Member-pick RoutingPolicy.least_load cursor cs client h = Member-pick_min_by cs _ h
  Member-pick RoutingPolicy.latency cursor cs client h = Member-pick_min_by cs _ h
  Member-pick RoutingPolicy.geo cursor cs client h = Member-geo_or_latency client.geo cs h

  pick-select_backend :
      (cursor : ℕ) (policy : RoutingPolicy) (bs : List (Backend f)) (client : ClientContext)
      → is_empty bs ≡ false
      → select_backend f cursor policy bs client
        ≡ pick f policy cursor (local_candidates f client.ingress_scope bs) client
  unfolding select_backend ingress_local_candidates
  pick-select_backend cursor policy bs client h = rw h

  -- Under every policy a non-empty set of backends yields one of its backends.
  pub select_backend_total :
      (cursor : ℕ) (policy : RoutingPolicy) (bs : List (Backend f)) (client : ClientContext)
      → is_empty bs ≡ false
      → (b : Backend f) × ((select_backend f cursor policy bs client).1 ≡ some b) × Member b bs
  select_backend_total cursor policy bs client h =
      let cs = local_candidates f client.ingress_scope bs in
      let r =
        pick_total policy cursor cs client (local_candidates_some client.ingress_scope bs h) in
      (
        r.0,
        rw (pick-select_backend cursor policy bs client h) r.1,
        Member-local_candidates client.ingress_scope bs (Member-pick policy cursor cs client r.1),
      )

  -- If some backend lies within the ingress scope of the client, then so does the one selected,
  -- under every policy.
  pub select_backend_local :
      (cursor : ℕ) (policy : RoutingPolicy) (bs : List (Backend f)) (client : ClientContext)
      (ingress : Scope) {b : Backend f}
      → client.ingress_scope ≡ some ingress
      → Passing (λ (c : Backend f). contains ingress c.scope) bs
      → (select_backend f cursor policy bs client).1 ≡ some b
      → contains ingress b.scope ≡ true
  select_backend_local cursor policy bs client ingress {b} e p h =
      let picked =
        rw (pick-select_backend cursor policy bs client (not_empty_of_Member p.1)) at h in
      local_candidates_local ingress bs p (
        subst (λ s. Member b (local_candidates f s bs)) e
          (Member-pick policy cursor (local_candidates f client.ingress_scope bs) client picked))

  select_backend_nil :
      (cursor : ℕ) (policy : RoutingPolicy) (client : ClientContext)
      → select_backend f cursor policy [] client ≡ (cursor, none)
  unfolding select_backend
  select_backend_nil cursor policy client = refl

  -- The backend selected is one of those given.
  pub Member-select_backend :
      (cursor : ℕ) (policy : RoutingPolicy) (bs : List (Backend f)) (client : ClientContext)
      {b : Backend f}
      → (select_backend f cursor policy bs client).1 ≡ some b
      → Member b bs
  Member-select_backend cursor policy [] client h =
      absurd
        (cc (ap (λ (r : ℕ × Option (Backend f)). r.1) (select_backend_nil cursor policy client)))
  Member-select_backend cursor policy (c ∷ bs) client h =
      Member-local_candidates client.ingress_scope (c ∷ bs) (
        Member-pick policy cursor (local_candidates f client.ingress_scope (c ∷ bs)) client
          (rw (pick-select_backend cursor policy (c ∷ bs) client refl) at h))
