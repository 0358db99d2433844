-- ===== src/Api/Fleet/Placement.antt =====
-- crates/ocf-api/src/fleet.rs: which machines a workload may be placed on.
use open_compute_fabric_rs.Prelude.{
  ◌≤◌, ◌≡◌, ◌↔◌, ◌∙◌, refl, ap, inl, inr, String, Bool, true, false, List, [], ◌∷◌, none, some,
  arith, string_eq, Option-cases, all, find_sound, find-none, Member, here, there, Member-filter,
  Member-of_filter,
}
use open_compute_fabric_rs.Prelude.Assoc.{Assoc, lookup}
use open_compute_fabric_rs.Core.Scope.{ResourceId, Scope, contains}
use open_compute_fabric_rs.Core.Metadata.{Metadata, matches_labels}
use open_compute_fabric_rs.Core.Quantity.{fits_in}
use open_compute_fabric_rs.Topology.Model.{Machine, machine_scope}
use open_compute_fabric_rs.Topology.Store.{InMemoryTopology, all_machines}
use open_compute_fabric_rs.Runtime.Workload.{Workload}
use open_compute_fabric_rs.Runtime.Workload.Placement.{permits_placement_iff}
use open_compute_fabric_rs.Api.Fleet.{
  machine_satisfies, candidate_nodes, schedule, first_id, machine_with, is_target, pick_target,
}

-- Every label that is asked for stands on the resource with that value.
abbrev pub Labelled : Metadata → Assoc String String → Type 0
Labelled m selector =
    (key value : String) → Member (key, value) selector → lookup key m.labels ≡ some value

-- What the documentation asks of a machine: the placement's scope contains it, it has the labels that
-- the selector names, and the request fits its capacity.
pub record Satisfies (w : Workload) (m : Machine) : Type 0 where
  pub placed : (s : Scope) → w.placement ≡ some s → contains s (machine_scope m) ≡ true
  pub labelled : Labelled m.metadata w.node_selector
  pub cpu : w.resources.cpu_millis ≤ m.capacity.cpu_millis
  pub memory : w.resources.memory_bytes ≤ m.capacity.memory_bytes
  pub disk : w.resources.disk_bytes ≤ m.capacity.disk_bytes

all_sound {ℓ} :
    {A : Type ℓ} (p : A → Bool) {a : A} {xs : List A} → all p xs ≡ true → Member a xs → p a ≡ true
unfolding all
all_sound p h (here e) = ap p e ∙ ground arith
all_sound p h (there m) = all_sound p (ground arith) m

all_complete {ℓ} :
    {A : Type ℓ} (p : A → Bool) (xs : List A)
    → ((a : A) → Member a xs → p a ≡ true)
    → all p xs ≡ true
unfolding all
all_complete p [] h = refl
all_complete p (x ∷ xs) h =
    let rest = all_complete p xs (λ a m. h a (there m)) in
    let first = h x (here refl) in ground arith

-- The test of one entry of a selector.
abbrev has_label : Metadata → String × String → Bool
has_label m entry = elim (lookup entry.0 m.labels) [
  | none ↦ false
  | some got ↦ string_eq.beq got entry.1
]

has_label_iff :
    (m : Metadata) (key value : String)
    → (has_label m (key, value) ≡ true) ↔ (lookup key m.labels ≡ some value)
has_label_iff m key value = elim (Option-cases (lookup key m.labels)) [
  | inl missing ↦ ((λ h. absurd (ground (arith, missing))), λ h. absurd (cc))
  | inr (got, found) ↦ (
    (λ h. ground (arith, string_eq.beq_iff got value)),
    λ h. ground (arith, string_eq.beq_iff got value),
  )
]

matches_labels_iff :
    (m : Metadata) (selector : Assoc String String)
    → (matches_labels m selector ≡ true) ↔ Labelled m selector
unfolding matches_labels
matches_labels_iff m selector = (
  (λ h key value e. (has_label_iff m key value).0 (all_sound (has_label m) h e)),
  λ h.
      all_complete (has_label m) selector
        (λ (key, value) e. (has_label_iff m key value).1 (h key value e)),
)

-- A machine satisfies a workload exactly when the placement's scope contains it, it carries every
-- label of the selector, and each requested amount is within its capacity.
pub machine_satisfies_iff :
    (w : Workload) (m : Machine) → (machine_satisfies w m ≡ true) ↔ Satisfies w m
unfolding machine_satisfies fits_in
machine_satisfies_iff w m =
    let placed = permits_placement_iff w (machine_scope m) in
    let labelled = matches_labels_iff m.metadata w.node_selector in
    (
      (λ h. record {
        placed = placed.0 (ground arith);
        labelled = labelled.0 (ground arith);
        cpu = ground arith;
        memory = ground arith;
        disk = ground arith;
      }),
      λ s. ground (arith, placed.1 s.placed, labelled.1 s.labelled, s.cpu, s.memory, s.disk),
    )

first_id-some :
    (ms : List Machine) {id : ResourceId}
    → first_id ms ≡ some id
    → (m : Machine) × Member m ms × (m.metadata.id ≡ id)
unfolding first_id
first_id-some [] h = absurd (cc)
first_id-some (m ∷ ms) h = (m, here refl, cc)

first_id-none : (ms : List Machine) {m : Machine} → first_id ms ≡ none → Member m ms → ⊥
unfolding first_id
first_id-none [] h n = elim n [ ]
first_id-none (m ∷ ms) h n = cc

-- `schedule` names a known machine that satisfies the workload, and it names none only if no known
-- machine does.
pub schedule_lem :
    (t : InMemoryTopology) (w : Workload)
    → ((id : ResourceId)
        → schedule t w ≡ some id
        → (m : Machine) × Member m (all_machines t) × (m.metadata.id ≡ id) × Satisfies w m)
      × (schedule t w ≡ none → (m : Machine) → Member m (all_machines t) → ¬ (Satisfies w m))
unfolding schedule candidate_nodes
schedule_lem t w = (
  (λ id h.
      let (m, n, e) = first_id-some (candidate_nodes t w) h in
      let (known, good) = Member-of_filter (machine_satisfies w) (all_machines t) n in
      (m, known, e, (machine_satisfies_iff w m).0 good)),
  λ h m known s.
      first_id-none (candidate_nodes t w) h
        (Member-filter (machine_satisfies w) known ((machine_satisfies_iff w m).1 s)),
)

-- `pick_target` names an alive machine which is known and satisfies the workload, and it names none
-- only if no alive id belongs to a known machine that does.
pub pick_target_lem :
    (w : Workload) (alive : List ResourceId) (machines : List Machine)
    → ((id : ResourceId)
        → pick_target w alive machines ≡ some id
        → Member id alive
          × ((m : Machine) × Member m machines × (m.metadata.id ≡ id) × Satisfies w m))
      × (pick_target w alive machines ≡ none
          → (id : ResourceId) (m : Machine) → Member id alive
          → machine_with id machines ≡ some m
          → ¬ (Satisfies w m))
unfolding pick_target is_target machine_with
pick_target_lem w alive machines = (
  (λ id h.
      let (present, good) = find_sound (is_target w machines) alive h in (present, found id good)),
  λ h id m present e s.
      let bad = find-none (is_target w machines) h present in
      cc (rw (e, is_target) at bad, (machine_satisfies_iff w m).1 s),
)
  where
    found :
        (id : ResourceId)
        → is_target w machines id ≡ true
        → (m : Machine) × Member m machines × (m.metadata.id ≡ id) × Satisfies w m
    found id good = elim (Option-cases (machine_with id machines)) [
      | inl missing ↦ absurd (cc (rw (missing, is_target) at good))
      | inr (m, e) ↦
          let (known, same) = find_sound (λ x. string_eq.beq x.metadata.id id) machines e in
          (
            m,
            known,
            (string_eq.beq_iff m.metadata.id id).0 same,
            (machine_satisfies_iff w m).0 (rw (e, is_target) at good),
          )
    ]
