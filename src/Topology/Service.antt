-- ===== src/Topology/Service.antt =====
-- crates/ocf-topology/src/lib.rs: the tree for the drill-down view, over the in-memory store.
use open_compute_fabric_rs.Prelude.{
  String, ◌≡◌, refl, sym, ap, subst, ◌∙◌, ◌↔◌, true, List, map, string_eq, Member, Member-map,
  Member-of_map, Member-filter, Member-of_filter,
}
use open_compute_fabric_rs.Prelude.Assoc.{values}
use open_compute_fabric_rs.Core.Error.{Result, ok, ◌>>=◌}
use open_compute_fabric_rs.Core.Scope.{ResourceId, Scope}
use open_compute_fabric_rs.Topology.Model as Model
use open_compute_fabric_rs.Topology.Model.{Region, Datacenter, Rack, Machine}
use open_compute_fabric_rs.Topology.Store.{
  InMemoryTopology, list_regions, list_datacenters, list_racks, list_machines, get_machine,
}

pub record RackNode : Type 0 where
  pub rack : Rack
  pub machines : List Machine

pub record DatacenterNode : Type 0 where
  pub datacenter : Datacenter
  pub racks : List RackNode

pub record RegionNode : Type 0 where
  pub region : Region
  pub datacenters : List DatacenterNode

pub record TopologyTree : Type 0 where
  pub regions : List RegionNode

abbrev pub rack_node : InMemoryTopology → Rack → RackNode
rack_node t rack = record { rack = rack; machines = list_machines t rack.metadata.id }

abbrev pub datacenter_node : InMemoryTopology → Datacenter → DatacenterNode
datacenter_node t dc = record {
  datacenter = dc;
  racks = map (rack_node t) (list_racks t dc.metadata.id);
}

abbrev pub region_node : InMemoryTopology → Region → RegionNode
region_node t region = record {
  region = region;
  datacenters = map (datacenter_node t) (list_datacenters t region.metadata.id);
}

unfoldable pub tree : InMemoryTopology → TopologyTree
tree t = record { regions = map (region_node t) (list_regions t) }

unfoldable pub machine_scope : InMemoryTopology → ResourceId → Result Scope
machine_scope t machine_id = do m ← get_machine t machine_id; ok (Model.machine_scope m)

-- The machine stands in the tree, under these three.
pub record Shown (tree : TopologyTree) (region : Region) (dc : Datacenter) (rack : Rack)
    (m : Machine) : Type 0 where
  pub region_at : RegionNode
  pub in_tree : Member region_at tree.regions
  pub region_is : region_at.region ≡ region
  pub datacenter_at : DatacenterNode
  pub in_region : Member datacenter_at region_at.datacenters
  pub datacenter_is : datacenter_at.datacenter ≡ dc
  pub rack_at : RackNode
  pub in_datacenter : Member rack_at datacenter_at.racks
  pub rack_is : rack_at.rack ≡ rack
  pub in_rack : Member m rack_at.machines

-- All four are stored, and each names the one above it.
pub record Stored (t : InMemoryTopology) (region : Region) (dc : Datacenter) (rack : Rack)
    (m : Machine) : Type 0 where
  pub region_stored : Member region (values t.regions)
  pub datacenter_stored : Member dc (values t.datacenters)
  pub datacenter_of : dc.region_id ≡ region.metadata.id
  pub rack_stored : Member rack (values t.racks)
  pub rack_of : rack.datacenter_id ≡ dc.metadata.id
  pub machine_stored : Member m (values t.machines)
  pub machine_of : m.rack_id ≡ rack.metadata.id

-- A machine stands in the tree under a region, a datacenter and a rack exactly when all four are
-- stored and the machine names the rack, the rack the datacenter and the datacenter the region.
pub tree_iff :
    (t : InMemoryTopology) (region : Region) (dc : Datacenter) (rack : Rack) (m : Machine)
    → Shown (tree t) region dc rack m ↔ Stored t region dc rack m
unfolding tree
tree_iff t region dc rack m = (shown, stored)
  where
    same : (a b : String) → (string_eq.beq a b ≡ true) ↔ (a ≡ b)
    same = string_eq.beq_iff

    stored : Stored t region dc rack m → Shown (tree t) region dc rack m
    stored s = record {
      region_at = region_node t region;
      in_tree = Member-map (region_node t) s.region_stored;
      region_is = refl;
      datacenter_at = datacenter_node t dc;
      in_region = Member-map (datacenter_node t) (
          Member-filter (λ (d : Datacenter). string_eq.beq d.region_id region.metadata.id)
            s.datacenter_stored ((same dc.region_id region.metadata.id).1 s.datacenter_of));
      datacenter_is = refl;
      rack_at = rack_node t rack;
      in_datacenter = Member-map (rack_node t) (
          Member-filter (λ (k : Rack). string_eq.beq k.datacenter_id dc.metadata.id) s.rack_stored
            ((same rack.datacenter_id dc.metadata.id).1 s.rack_of));
      rack_is = refl;
      in_rack =
          Member-filter (λ (x : Machine). string_eq.beq x.rack_id rack.metadata.id) s.machine_stored
            ((same m.rack_id rack.metadata.id).1 s.machine_of);
    }

    shown : Shown (tree t) region dc rack m → Stored t region dc rack m
    shown s =
        let a = Member-of_map (region_node t) (list_regions t) s.in_tree in
        let b =
          Member-of_map (datacenter_node t) (list_datacenters t a.0.metadata.id)
            (subst (λ (n : RegionNode). Member s.datacenter_at n.datacenters) a.2 s.in_region) in
        let b' =
          Member-of_filter (λ (x : Datacenter). string_eq.beq x.region_id a.0.metadata.id)
            (values t.datacenters) b.1 in
        let c =
          Member-of_map (rack_node t) (list_racks t b.0.metadata.id)
            (subst (λ (n : DatacenterNode). Member s.rack_at n.racks) b.2 s.in_datacenter) in
        let c' =
          Member-of_filter (λ (x : Rack). string_eq.beq x.datacenter_id b.0.metadata.id)
            (values t.racks) c.1 in
        let m' =
          Member-of_filter (λ (x : Machine). string_eq.beq x.rack_id c.0.metadata.id)
            (values t.machines) (subst (λ (n : RackNode). Member m n.machines) c.2 s.in_rack) in
        let r : region ≡ a.0 = sym s.region_is ∙ ap (λ (n : RegionNode). n.region) a.2 in
        let d : dc ≡ b.0 = sym s.datacenter_is ∙ ap (λ (n : DatacenterNode). n.datacenter) b.2 in
        let k : rack ≡ c.0 = sym s.rack_is ∙ ap (λ (n : RackNode). n.rack) c.2 in
        let found : Stored t a.0 b.0 c.0 m = record {
          region_stored = a.1;
          datacenter_stored = b'.0;
          datacenter_of = (same b.0.region_id a.0.metadata.id).0 b'.1;
          rack_stored = c'.0;
          rack_of = (same c.0.datacenter_id b.0.metadata.id).0 c'.1;
          machine_stored = m'.0;
          machine_of = (same m.rack_id c.0.metadata.id).0 m'.1;
        } in
        rw (r, d, k) found
