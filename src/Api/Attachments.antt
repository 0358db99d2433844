-- ===== src/Api/Attachments.antt =====
-- crates/ocf-api/src/controller.rs: the attachments of workloads to subnets. `splice`, which runs
-- commands in the workload's network namespace and only logs its failures, and `persist`, which saves
-- a snapshot, act on the world alone and are arguments.
pub mod Held
pub mod Consistent
pub mod Laws
pub mod Stale
use open_compute_fabric_rs.Prelude.{
  String, Bool, true, false, ◌&&◌, List, [], ◌∷◌, Option, none, some, string_eq, filter,
}
use open_compute_fabric_rs.Prelude.Assoc.{Assoc, lookup, insert, remove, values}
use open_compute_fabric_rs.Prelude.Text.{Text}
use open_compute_fabric_rs.Core.Error.{Result, ok, err}
use open_compute_fabric_rs.Core.Scope.{ResourceId}
use open_compute_fabric_rs.Core.Metadata.{Time}
use open_compute_fabric_rs.Network.Ipam.{Printer}
use open_compute_fabric_rs.Network.Model.{Subnet, EgressMode}
use open_compute_fabric_rs.Network.Controller.{
  NetworkController, get_subnet, allocate_address, release_address, refresh_subnet_egress,
}
use open_compute_fabric_rs.Network.Controller as Network
use open_compute_fabric_rs.Runtime.Workload.{
  Workload, NetworkAttachment, new_attachment, with_egress, with_address,
}

-- The part of `FabricController` that the attachments are kept in.
pub record Overlay (W : Type 0) : Type 0 where
  pub network : NetworkController W
  pub attachments : Assoc ResourceId NetworkAttachment

-- `filter_map(|a| a.address.clone())`
addresses : List NetworkAttachment → List Text
addresses [] = []
addresses (a ∷ rest) = elim a.address [ none ↦ addresses rest | some t ↦ t ∷ addresses rest ]

unfoldable pub subnet_egress_allowed : Assoc ResourceId NetworkAttachment → ResourceId → List Text
unfolding addresses
subnet_egress_allowed attachments subnet_id =
    addresses (filter (λ a. string_eq.beq a.subnet_id subnet_id && a.egress) (values attachments))

-- The stored attachment replaces what the provider lists.
abbrev pub overlaid : Assoc ResourceId NetworkAttachment → Workload → Workload
overlaid attachments w = elim (lookup w.metadata.id attachments) [
  | none ↦ w
  | some att ↦ record w { network = some att }
]

-- `address.as_deref().unwrap_or("")`
abbrev pub address_or_empty : NetworkAttachment → Text
address_or_empty a = elim a.address [ none ↦ [] | some t ↦ t ]

abbrev pub attached : ResourceId → Bool → Text → NetworkAttachment
attached subnet_id egress address =
    with_address (with_egress (new_attachment subnet_id) egress) address

module _ {W : Type 0} where
  pub release_prior : NetworkController W → Option NetworkAttachment → NetworkController W
  unfolding release_address
  release_prior network none = network
  release_prior network (some prev) = release_address network prev.subnet_id (address_or_empty prev)

  module _ (splice : ResourceId → NetworkAttachment → W → W) (persist : W → W) where
    -- The binding with its new address is recorded, and then programmed.
    pub bind :
        Assoc ResourceId NetworkAttachment
        → ResourceId
        → ResourceId
        → Bool
        → W
        → Option (NetworkController W × Result Text)
        → Option (Overlay W × W × Result NetworkAttachment)
    unfolding refresh_subnet_egress subnet_egress_allowed
    bind attachments workload_id subnet_id egress w none = none
    bind attachments workload_id subnet_id egress w (some (network, err e)) =
        some (record { network = network; attachments = attachments }, w, err e)
    bind attachments workload_id subnet_id egress w (some (network, ok address)) =
        let attachment = attached subnet_id egress address in
        let attachments' = insert workload_id attachment attachments in
        let allowed = subnet_egress_allowed attachments' subnet_id in
        let w' = (refresh_subnet_egress network subnet_id allowed w).0 in
        some (
          record { network = network; attachments = attachments' },
          persist (splice workload_id attachment w'),
          ok attachment,
        )

    -- `none` only where the search of an address does not end.
    unfoldable pub attach_workload :
        Printer
        → Overlay W
        → ResourceId
        → ResourceId
        → Bool
        → W
        → Option (Overlay W × W × Result NetworkAttachment)
    unfolding bind release_prior get_subnet allocate_address
    attach_workload p o workload_id subnet_id egress w = elim (get_subnet o.network subnet_id) [
      | err e ↦ some (o, w, err e)
      | ok _ ↦ bind o.attachments workload_id subnet_id egress w (
          allocate_address p (release_prior o.network (lookup workload_id o.attachments)) subnet_id)
    ]

    pub unbind :
        Overlay W → ResourceId → W → Option NetworkAttachment → Overlay W × W × Result (Unit {0})
    unfolding release_address refresh_subnet_egress subnet_egress_allowed
    unbind o workload_id w none = (o, w, ok tt)
    unbind o workload_id w (some att) =
        let network = release_address o.network att.subnet_id (address_or_empty att) in
        let attachments = remove workload_id o.attachments in
        let allowed = subnet_egress_allowed attachments att.subnet_id in
        (
          record { network = network; attachments = attachments },
          persist (refresh_subnet_egress network att.subnet_id allowed w).0,
          ok tt,
        )

    unfoldable pub detach_workload : Overlay W → ResourceId → W → Overlay W × W × Result (Unit {0})
    unfolding unbind
    detach_workload o workload_id w = unbind o workload_id w (lookup workload_id o.attachments)

    unfoldable pub set_subnet_egress :
        Time → Overlay W → ResourceId → EgressMode → W → Overlay W × W × Result Subnet
    unfolding Network.set_subnet_egress subnet_egress_allowed
    set_subnet_egress now o subnet_id mode w =
        let allowed = subnet_egress_allowed o.attachments subnet_id in
        let (network, w', r) = Network.set_subnet_egress now o.network subnet_id mode allowed w in
        (record o { network = network }, elim r [ ok _ ↦ persist w' | err e ↦ w' ], r)
