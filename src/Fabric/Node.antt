-- ===== src/Fabric/Node.antt =====
-- crates/ocf-fabric/src/node.rs and crypto.rs: a node of the mesh. A public key is its fingerprint's
-- text.
use open_compute_fabric_rs.Prelude.{
  String, Bool, true, false, not, List, [], ◌∷◌, Option, none, some,
}
use open_compute_fabric_rs.Core.Scope.{ResourceId}
use open_compute_fabric_rs.Core.Metadata.{Time}

-- `NodeId` is a transparent wrapper of a string.
abbrev pub NodeId : Type 0
NodeId = String

pub data Reachability : Type 0 where
  public private relay : Reachability

abbrev pub is_private : Reachability → Bool
is_private Reachability.private = true
is_private _ = false

pub record FabricNode : Type 0 where
  pub node_id : NodeId
  pub machine_id : Option ResourceId
  pub public_key : String
  pub endpoints : List String
  pub reachability : Reachability
  pub last_seen : Time

abbrev pub new : Time → NodeId → String → List String → FabricNode
new now node_id public_key endpoints = record {
  node_id = node_id;
  machine_id = none;
  public_key = public_key;
  endpoints = endpoints;
  reachability = Reachability.public;
  last_seen = now;
}

abbrev pub with_machine : FabricNode → ResourceId → FabricNode
with_machine n machine_id = record n { machine_id = some machine_id }

abbrev pub with_reachability : FabricNode → Reachability → FabricNode
with_reachability n reachability = record n { reachability = reachability }

abbrev pub is_directly_dialable : FabricNode → Bool
is_directly_dialable n = not (is_private n.reachability)

abbrev pub is_relay : FabricNode → Bool
is_relay n = elim n.reachability [ public ↦ false | private ↦ false | relay ↦ true ]

abbrev pub touch : Time → FabricNode → FabricNode
touch now n = record n { last_seen = now }

abbrev pub primary_endpoint : FabricNode → Option String
primary_endpoint n = elim n.endpoints [ [] ↦ none | e ∷ es ↦ some e ]
