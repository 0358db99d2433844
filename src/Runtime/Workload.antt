-- ===== src/Runtime/Workload.antt =====
-- crates/ocf-runtime/src/workload.rs: workloads, their network attachments and memory snapshots.
-- Fresh ids and texts and the time are arguments.
pub mod Placement
use open_compute_fabric_rs.Prelude.{ℕ, String, Bool, true, false, [], Option, none, some, string_eq}
use open_compute_fabric_rs.Prelude.Assoc.{Assoc, insert}
use open_compute_fabric_rs.Prelude.Text.{Text}
use open_compute_fabric_rs.Core.Scope.{ResourceId, Scope, contains}
use open_compute_fabric_rs.Core.Metadata as Metadata
use open_compute_fabric_rs.Core.Metadata.{Metadata, Time}
use open_compute_fabric_rs.Core.Quantity.{ResourceSpec, default}
use open_compute_fabric_rs.Core.Health.{LifecycleState}

pub data RuntimeKind : Type 0 where
  container virtual_machine : RuntimeKind

abbrev pub kind_name : RuntimeKind → String
kind_name RuntimeKind.container = "container"
kind_name RuntimeKind.virtual_machine = "virtual_machine"

-- An address is a text of code points, as in Network.Ipam.
pub record NetworkAttachment : Type 0 where
  pub subnet_id : ResourceId
  pub egress : Bool
  pub address : Option Text

abbrev pub new_attachment : ResourceId → NetworkAttachment
new_attachment subnet_id = record { subnet_id = subnet_id; egress = false; address = none }

abbrev pub with_egress : NetworkAttachment → Bool → NetworkAttachment
with_egress a egress = record a { egress = egress }

abbrev pub with_address : NetworkAttachment → Text → NetworkAttachment
with_address a address = record a { address = some address }

pub record Workload : Type 0 where
  pub metadata : Metadata
  pub kind : RuntimeKind
  pub image : String
  pub resources : ResourceSpec
  pub state : LifecycleState
  pub node : Option ResourceId
  pub highly_available : Bool
  pub placement : Option Scope
  pub env : Assoc String String
  pub node_selector : Assoc String String
  pub network : Option NetworkAttachment

workload_of : RuntimeKind → ResourceId → Time → String → String → Workload
workload_of kind fresh now name image = record {
  metadata = Metadata.new fresh now name;
  kind = kind;
  image = image;
  resources = default;
  state = LifecycleState.pending;
  node = none;
  highly_available = false;
  placement = none;
  env = [];
  node_selector = [];
  network = none;
}

unfoldable pub new_container : ResourceId → Time → String → String → Workload
unfolding workload_of
new_container fresh now name image = workload_of RuntimeKind.container fresh now name image

unfoldable pub new_virtual_machine : ResourceId → Time → String → String → Workload
unfolding workload_of
new_virtual_machine fresh now name image =
    workload_of RuntimeKind.virtual_machine fresh now name image

abbrev pub with_resources : Workload → ResourceSpec → Workload
with_resources w resources = record w { resources = resources }

abbrev pub on_node : Workload → ResourceId → Workload
on_node w node = record w { node = some node }

abbrev pub within : Workload → Scope → Workload
within w placement = record w { placement = some placement }

abbrev pub made_available : Workload → Bool → Workload
made_available w ha = record w { highly_available = ha }

abbrev pub with_network : Workload → NetworkAttachment → Workload
with_network w attachment = record w { network = some attachment }

abbrev pub requires : Workload → String → String → Workload
requires w key value = record w { node_selector = insert key value w.node_selector }

unfoldable pub wants_egress : Workload → Bool
wants_egress w = elim w.network [ none ↦ false | some n ↦ n.egress ]

unfoldable pub permits_placement : Workload → Scope → Bool
permits_placement w target = elim w.placement [ none ↦ true | some scope ↦ contains scope target ]

pub record MemorySnapshot : Type 0 where
  pub workload_id : ResourceId
  pub node : Option ResourceId
  pub bytes_len : ℕ
  pub blob_ref : String

-- `blob_ref` is a fresh text.
abbrev pub new_snapshot : String → ResourceId → Option ResourceId → ℕ → MemorySnapshot
new_snapshot blob_ref workload_id node bytes_len = record {
  workload_id = workload_id;
  node = node;
  bytes_len = bytes_len;
  blob_ref = blob_ref;
}
