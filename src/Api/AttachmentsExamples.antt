-- ===== src/Api/AttachmentsExamples.antt =====
-- crates/ocf-api/src/controller.rs: two subnets of two hosts each, of which one is full.
use open_compute_fabric_rs.Prelude.{
  ◌↔◌, ℕ, ◌+◌, ◌≡◌, ◌∙◌, refl, sym, ap, subst, inl, inr, true, false, [], ◌∷◌, none, some, arith,
  string_eq, nat_eq, any, filter, Bool-cases, if◌then◌else◌,
}
use open_compute_fabric_rs.Prelude.Assoc.{lookup, insert}
use open_compute_fabric_rs.Prelude.Sets.{contains as has, add}
use open_compute_fabric_rs.Prelude.Text.{
  split_on, trim, trim_end, trim_start, print_u8, is_whitespace, parse_u8,
}
use open_compute_fabric_rs.Core.Error.{err, conflict}
use open_compute_fabric_rs.Core.Scope.{ResourceId}
use open_compute_fabric_rs.Core.Registry as Registry
use open_compute_fabric_rs.Network.Ipam as Ipam
use open_compute_fabric_rs.Network.Ipam.{SubnetAllocator, Printer, format_ipv4}
use open_compute_fabric_rs.Network.Ipam.Allocation.{HasHosts}
use open_compute_fabric_rs.Network.Model.{new_subnet}
use open_compute_fabric_rs.Network.Controller.{
  NetworkController, new, get_subnet, allocate_address, release_address,
}
use open_compute_fabric_rs.Runtime.Workload.{NetworkAttachment}
use open_compute_fabric_rs.Api.Attachments.{Overlay, attached, attach_workload, detach_workload}
use open_compute_fabric_rs.Api.Attachments.Held.{InUse, AllHosts}
use open_compute_fabric_rs.Api.Attachments.Consistent.{IsConsistent}
use open_compute_fabric_rs.Api.Attachments.Laws.{
  Outcome, attach_workload-Outcome, detach_workload-IsConsistent,
}
use open_compute_fabric_rs.Api.Attachments.Stale.{attach_workload_stale}

abbrev printer : Printer
printer = record { text = λ t. "text"; number = λ n. "number" }

-- The world counts the programmed calls.
abbrev splice : ResourceId → NetworkAttachment → ℕ → ℕ
splice w att v = v + 1

abbrev persist : ℕ → ℕ
persist v = v + 1

-- 10.0.0.0/30 and 10.0.1.0/30, with one host each besides the gateway.
abbrev web : SubnetAllocator
web = record { base = 167772160; prefix = 30; used = 167772161 ∷ 167772162 ∷ [] }

abbrev db : SubnetAllocator
db = record { base = 167772416; prefix = 30; used = 167772417 ∷ 167772418 ∷ [] }

abbrev network : NetworkController ℕ
network = record (new Registry.new) {
  subnets =
      ("web", new_subnet 0 "tenant" "web" [] "ns-web")
      ∷ ("db", new_subnet 0 "tenant" "db" [] "ns-db")
      ∷ [];
  ipam = ("web", web) ∷ ("db", db) ∷ [];
}

abbrev overlay : Overlay ℕ
overlay = record {
  network = network;
  attachments = ("w1", attached "web" false (format_ipv4 167772162)) ∷ [];
}

web-HasHosts : HasHosts web
web-HasHosts = record {
  subnet = record { prefix_fits = omega arith; base_fits = omega arith; aligned = refl };
  not_all = omega arith;
  room = omega arith;
}

db-HasHosts : HasHosts db
db-HasHosts = record {
  subnet = record { prefix_fits = omega arith; base_fits = omega arith; aligned = refl };
  not_all = omega arith;
  room = omega arith;
}

network-AllHosts : AllHosts network
unfolding lookup
network-AllHosts k a e = elim (Bool-cases (string_eq.beq "web" k)) [
  | inl first ↦ let q : web ≡ a = cc (rw first at e) in subst HasHosts q web-HasHosts
  | inr other ↦ elim (Bool-cases (string_eq.beq "db" k)) [
    | inl second ↦ let q : db ≡ a = cc (rw (other, second) at e) in subst HasHosts q db-HasHosts
    | inr neither ↦ absurd (cc (rw (other, neither) at e))
  ]
]

bound_only :
    {w : ResourceId} {att : NetworkAttachment}
    → lookup w overlay.attachments ≡ some att
    → ("w1" ≡ w) × (attached "web" false (format_ipv4 167772162) ≡ att)
unfolding lookup
bound_only {w} {att} e = elim (Bool-cases (string_eq.beq "w1" w)) [
  | inl same ↦ ((string_eq.beq_iff "w1" w).0 same, cc (rw same at e))
  | inr other ↦ absurd (cc (rw other at e))
]

web_used : InUse network "web" 167772162
unfolding lookup has any
web_used = (web, refl, refl)

overlay-IsConsistent : IsConsistent overlay
overlay-IsConsistent = record {
  hosts = network-AllHosts;
  held = λ w att t e f.
      let made = (bound_only e).1 in
      let text : t ≡ format_ipv4 167772162 = cc in
      (
        167772162,
        omega (arith),
        text,
        subst (λ s. InUse network s 167772162) (ap (λ x. x.subnet_id) made) web_used,
      );
  apart = λ v w a b t e f s p q. sym (bound_only e).0 ∙ (bound_only f).0;
}

attach_workload-Outcome_example :
    Outcome splice persist overlay "w2" "db" true
      (attach_workload splice persist printer overlay "w2" "db" true 0)
attach_workload-Outcome_example =
    attach_workload-Outcome splice persist printer overlay "w2" "db" true 0 overlay-IsConsistent

abbrev detached : Overlay ℕ
detached = (detach_workload splice persist overlay "w1" 0).0

detach_workload-IsConsistent_example :
    IsConsistent detached
    × ((x : ResourceId)
        → lookup x detached.attachments
          ≡ (if string_eq.beq "w1" x then none else lookup x overlay.attachments))
    × ((sid : ResourceId) (m : ℕ)
        → InUse detached.network sid m
          ↔ (InUse network sid m × ¬ ((sid ≡ "web") × (m ≡ 167772162))))
unfolding lookup
detach_workload-IsConsistent_example =
    detach_workload-IsConsistent splice persist overlay "w1" 0 overlay-IsConsistent refl refl
      (omega arith) refl (λ (e : 167772162 ≡ 167772161). omega (arith, e))

abbrev stale : Overlay ℕ
stale = record overlay {
  network = record network {
    ipam = ("web", record web { used = 167772161 ∷ [] }) ∷ ("db", db) ∷ [];
  };
}

moved :
    attach_workload splice persist printer overlay "w1" "db" true 0
    ≡ some (stale, 0, err (conflict "subnet address pool exhausted"))
unfolding attach_workload lookup insert Ipam.allocate Ipam.last_host Ipam.first_host
    Ipam.search_free has any Ipam.release Ipam.parse_ipv4 split_on trim trim_end trim_start
    format_ipv4 print_u8 is_whitespace allocate_address get_subnet add parse_u8 release_address
    filter Ipam.checked_host Ipam.without
moved = refl

attach_workload_stale_example :
    (lookup "w1" stale.attachments ≡ some (attached "web" false (format_ipv4 167772162)))
    × ¬ (InUse stale.network "web" 167772162)
unfolding lookup
attach_workload_stale_example =
    attach_workload_stale splice persist printer overlay "w1" "db" true 0 overlay-IsConsistent refl
      refl (omega arith) refl (λ (e : 167772162 ≡ 167772161). omega (arith, e)) refl moved
