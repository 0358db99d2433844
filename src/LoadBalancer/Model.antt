-- ===== src/LoadBalancer/Model.antt =====
-- crates/ocf-loadbalancer/src/model.rs: the load-balancer resource and what routing reads.
use open_compute_fabric_rs.Prelude.{
  ℕ, String, Bool, true, false, List, [], ◌∷◌, ◌++◌, Option, none, some, string_eq,
}
use open_compute_fabric_rs.Prelude.Assoc.{Assoc, insert}
use open_compute_fabric_rs.Prelude.Float.{F64}
use open_compute_fabric_rs.Core.Scope.{ResourceId, Scope, contains}
use open_compute_fabric_rs.Core.Metadata as Metadata
use open_compute_fabric_rs.Core.Metadata.{Time}

pub data LbKind : Type 0 where
  tcp application : LbKind

pub data RoutingPolicy : Type 0 where
  round_robin least_load latency geo : RoutingPolicy

pub record Listener : Type 0 where
  pub port : ℕ
  pub tls : Bool

abbrev pub tcp_listener : ℕ → Listener
tcp_listener port = record { port = port; tls = false }

abbrev pub tls_listener : ℕ → Listener
tls_listener port = record { port = port; tls = true }

pub record LoadBalancer : Type 0 where
  pub metadata : Metadata.Metadata
  pub kind : LbKind
  pub listeners : List Listener
  pub target_selector : Assoc String String
  pub policy : RoutingPolicy
  pub placement : Option Scope
  pub anycast : Bool
  pub hostnames : List String

abbrev pub new : ResourceId → Time → String → LbKind → RoutingPolicy → LoadBalancer
new fresh now name kind policy = record {
  metadata = Metadata.new fresh now name;
  kind = kind;
  listeners = [];
  target_selector = [];
  policy = policy;
  placement = none;
  anycast = false;
  hostnames = [];
}

abbrev pub with_listener : LoadBalancer → Listener → LoadBalancer
with_listener lb listener = record lb { listeners = lb.listeners ++ listener ∷ [] }

abbrev pub with_hostname : LoadBalancer → String → LoadBalancer
with_hostname lb hostname = record lb { hostnames = lb.hostnames ++ hostname ∷ [] }

abbrev pub with_placement : LoadBalancer → Scope → LoadBalancer
with_placement lb scope = record lb { placement = some scope }

abbrev pub fronting : LoadBalancer → String → String → LoadBalancer
fronting lb key value = record lb { target_selector = insert key value lb.target_selector }

pub record Backend (f : F64) : Type 0 where
  pub workload_id : ResourceId
  pub address : String
  pub scope : Scope
  pub load : f.Carrier
  pub latency_ms : f.Carrier
  pub geo : Option String

module _ {f : F64} where
  abbrev pub new_backend : ResourceId → String → Scope → Backend f
  new_backend workload_id address scope = record {
    workload_id = workload_id;
    address = address;
    scope = scope;
    load = f.zero;
    latency_ms = f.zero;
    geo = none;
  }

  abbrev pub with_load : Backend f → f.Carrier → Backend f
  with_load b load = record b { load = load }

  abbrev pub with_latency : Backend f → f.Carrier → Backend f
  with_latency b latency_ms = record b { latency_ms = latency_ms }

  abbrev pub with_geo : Backend f → String → Backend f
  with_geo b region = record b { geo = some region }

-- A scoped load balancer admits the backends that its placement contains.
unfoldable pub placement_admits : Option Scope → Scope → Bool
placement_admits none scope = true
placement_admits (some placement) scope = contains placement scope

abbrev pub admits : {f : F64} → LoadBalancer → Backend f → Bool
admits lb backend = placement_admits lb.placement backend.scope

pub record ClientContext : Type 0 where
  pub src_ip : Option String
  pub ingress_scope : Option Scope
  pub geo : Option String
