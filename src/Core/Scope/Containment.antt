-- ===== src/Core/Scope/Containment.antt =====
-- crates/ocf-core/src/scope.rs: containment of scopes, and the machine paths under a scope.
use open_compute_fabric_rs.Prelude.{
  ◌≤◌, String, ◌≡◌, refl, sym, ◌↔◌, true, Option, none, some, arith, string_eq, beq_refl,
  if◌then◌else◌, Bool-cases, inl, inr,
}
use open_compute_fabric_rs.Core.Scope.Level.{depth}
use open_compute_fabric_rs.Core.Scope.{
  ResourceId, Scope, fleet, of_machine, level, level_ok, contains,
}

abbrev same : (a b : String) → (string_eq.beq a b ≡ true) ↔ (a ≡ b)
same = string_eq.beq_iff

level_ok_refl : (a : Option ResourceId) → level_ok a a ≡ true
unfolding level_ok
level_ok_refl none = refl
level_ok_refl (some a) = beq_refl a

level_ok_trans :
    (a b c : Option ResourceId) → level_ok a b ≡ true → level_ok b c ≡ true → level_ok a c ≡ true
unfolding level_ok
level_ok_trans none b c p q = refl
level_ok_trans (some a) (some b) (some c) p q = ground (arith, same b a, same c b, same c a)
level_ok_trans (some a) b c p q = ground arith

level_ok_antisym : (a b : Option ResourceId) → level_ok a b ≡ true → level_ok b a ≡ true → a ≡ b
unfolding level_ok
level_ok_antisym none none p q = refl
level_ok_antisym (some a) (some b) p q = ground (arith, same b a)
level_ok_antisym a b p q = ground arith

-- Every scope contains itself.
pub contains_refl : (s : Scope) → contains s s ≡ true
unfolding contains
contains_refl s = ground (
  arith,
  level_ok_refl s.region,
  level_ok_refl s.datacenter,
  level_ok_refl s.rack,
  level_ok_refl s.machine,
)

-- What a contained scope contains is contained too.
pub contains_trans :
    (s t u : Scope) → contains s t ≡ true → contains t u ≡ true → contains s u ≡ true
unfolding contains
contains_trans s t u p q = ground (
  arith,
  level_ok_trans s.region t.region u.region,
  level_ok_trans s.datacenter t.datacenter u.datacenter,
  level_ok_trans s.rack t.rack u.rack,
  level_ok_trans s.machine t.machine u.machine,
)

-- Two scopes that contain each other are equal.
pub contains_antisym : (s t : Scope) → contains s t ≡ true → contains t s ≡ true → s ≡ t
unfolding contains
contains_antisym s t p q = ground (
  arith,
  level_ok_antisym s.region t.region,
  level_ok_antisym s.datacenter t.datacenter,
  level_ok_antisym s.rack t.rack,
  level_ok_antisym s.machine t.machine,
)

-- The fleet contains every scope.
pub contains-fleet : (s : Scope) → contains fleet s ≡ true
unfolding contains level_ok
contains-fleet s = refl

-- A scope is at most as deep as a scope that it contains.
pub depth-contains : (s t : Scope) → contains s t ≡ true → depth (level s) ≤ depth (level t)
unfolding contains level level_ok
depth-contains s t h = ground arith

-- A name of one level that `b` admits, and that `a` admits only if `a` admits all that `b` does.
differ : String → String
differ p = if string_eq.beq "" p then "x" else ""

differ-ne : (p : String) → string_eq.beq (differ p) p ≡ true → ⊥
unfolding differ
differ-ne p h = elim (Bool-cases (string_eq.beq "" p)) [
  | inl e ↦
      let q : differ p ≡ "x" = rw e in
      let empty : "" ≡ p = (same "" p).0 e in
      let x : "x" ≡ p = (same "x" p).0 (rw e at h) in ground (arith, same "" "x")
  | inr e ↦ let r = rw e at h in ground arith
]

pick : Option ResourceId → Option ResourceId → ResourceId
pick a (some y) = y
pick none none = ""
pick (some p) none = differ p

pick_admitted : (a b : Option ResourceId) → level_ok b (some (pick a b)) ≡ true
unfolding level_ok pick
pick_admitted a (some y) = beq_refl y
pick_admitted none none = refl
pick_admitted (some p) none = refl

pick_telling : (a b : Option ResourceId) → level_ok a (some (pick a b)) ≡ true → level_ok a b ≡ true
unfolding level_ok pick
pick_telling none b h = refl
pick_telling (some p) (some y) h = h
pick_telling (some p) none h = absurd (differ-ne p h)

-- A level of a scope admits the ids that it names, and all if it names none.
abbrev Admits : Option ResourceId → ResourceId → Type 0
Admits named id = (p : ResourceId) → named ≡ some p → p ≡ id

-- The machine paths under a scope: at each level, the path has the id that the scope names there.
abbrev pub Covers : Scope → ResourceId → ResourceId → ResourceId → ResourceId → Type 0
Covers s r d k m = Admits s.region r × Admits s.datacenter d × Admits s.rack k × Admits s.machine m

level_ok_iff :
    (named : Option ResourceId) (id : ResourceId)
    → (level_ok named (some id) ≡ true) ↔ Admits named id
unfolding level_ok
level_ok_iff none id = ((λ h p e. absurd (cc)), λ h. refl)
level_ok_iff (some q) id =
    ((λ h p e. let found : id ≡ q = (same id q).0 h in cc), λ h. (same id q).1 (sym (h q refl)))

contains-of_machine :
    (s : Scope) (r d k m : ResourceId) → (contains s (of_machine r d k m) ≡ true) ↔ Covers s r d k m
unfolding contains
contains-of_machine s r d k m =
    let region = level_ok_iff s.region r in
    let datacenter = level_ok_iff s.datacenter d in
    let rack = level_ok_iff s.rack k in
    let machine = level_ok_iff s.machine m in
    (
      (λ h. (
        region.0 (ground arith),
        datacenter.0 (ground arith),
        rack.0 (ground arith),
        machine.0 (ground arith),
      )),
      λ (a, b, c, e). ground (arith, region.1 a, datacenter.1 b, rack.1 c, machine.1 e),
    )

contains_of_paths :
    (s t : Scope)
    → ((r d k m : ResourceId)
        → contains t (of_machine r d k m) ≡ true
        → contains s (of_machine r d k m) ≡ true)
    → contains s t ≡ true
unfolding contains
contains_of_paths s t h =
    let told =
      h (pick s.region t.region) (pick s.datacenter t.datacenter) (pick s.rack t.rack)
        (pick s.machine t.machine)
        (ground (
          arith,
          pick_admitted s.region t.region,
          pick_admitted s.datacenter t.datacenter,
          pick_admitted s.rack t.rack,
          pick_admitted s.machine t.machine,
        )) in
    ground (
      arith,
      pick_telling s.region t.region,
      pick_telling s.datacenter t.datacenter,
      pick_telling s.rack t.rack,
      pick_telling s.machine t.machine,
    )

-- One scope contains another exactly when every machine path under the second, which has the ids
-- that the second names at its levels, is under the first.
pub contains_iff :
    (s t : Scope)
    → (contains s t ≡ true) ↔ ((r d k m : ResourceId) → Covers t r d k m → Covers s r d k m)
contains_iff s t = (
  (λ h r d k m c.
      (contains-of_machine s r d k m).0
        (contains_trans s t (of_machine r d k m) h ((contains-of_machine t r d k m).1 c))),
  λ h. contains_of_paths s t (λ r d k m c.
      (contains-of_machine s r d k m).1 (h r d k m ((contains-of_machine t r d k m).0 c))),
)
