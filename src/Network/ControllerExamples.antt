-- ===== src/Network/ControllerExamples.antt =====
-- crates/ocf-network/src/controller.rs: a VPC with one subnet over two backends that count calls.
use open_compute_fabric_rs.Prelude.{ℕ, suc, ◌≡◌, refl, [], ◌∷◌, string_eq}
use open_compute_fabric_rs.Prelude.Assoc.{lookup, insert}
use open_compute_fabric_rs.Core.Error.{Result, ok, err, provider}
use open_compute_fabric_rs.Core.Registry.{Registry}
use open_compute_fabric_rs.Network.Ipam.{Printer}
use open_compute_fabric_rs.Network.Model.{Vpc, Subnet, EgressMode, new_vpc, new_subnet, with_egress}
use open_compute_fabric_rs.Network.Controller.{
  NetworkBackend, NetworkController, new, create_vpc, create_subnet, delete_vpc,
}
use open_compute_fabric_rs.Network.Controller.Integrity.{IsConsistent}
use open_compute_fabric_rs.Network.Controller.Calls.{
  here, next, create_vpc_step, create_subnet_step, delete_vpc_step, Reach-IsConsistent,
}

abbrev printer : Printer
printer = record { text = λ t. "text"; number = λ n. "number" }

-- Counts the calls, and fails on subnets if told to.
abbrev counting : Result (Unit {0}) → NetworkBackend ℕ
counting answer = record {
  apply_vpc = λ v w. (suc w, ok tt);
  apply_subnet = λ s w. (suc w, answer);
  apply_route = λ r w. (suc w, ok tt);
  apply_policy = λ p w. (suc w, ok tt);
  apply_egress = λ s a w. (suc w, ok tt);
  apply_vpc_peers = λ v a w. (suc w, ok tt);
}

abbrev backends : Registry (NetworkBackend ℕ)
backends = record {
  providers =
      ("ovs", counting (err (provider "ovs" "no bridge"))) ∷ ("linux-netns", counting (ok tt)) ∷ [];
}

abbrev tenant : Vpc
tenant = new_vpc 0 "tenant" [] 100

-- 10.0.1.0/24
abbrev web : Subnet
web =
    with_egress
      (new_subnet 0 "tenant" "web"
        (b'1' ∷ b'0' ∷ b'.' ∷ b'0' ∷ b'.' ∷ b'1' ∷ b'.' ∷ b'0' ∷ b'/' ∷ b'2' ∷ b'4' ∷ []) "ns-web")
      EgressMode.nat

abbrev with_vpc : NetworkController ℕ
with_vpc = (create_vpc (new backends) tenant 0).0

abbrev with_web : NetworkController ℕ
with_web = (create_subnet printer with_vpc web 0).0

-- The first backend fails on the subnet, so only it is asked; then NAT is programmed on both.
web_created : (create_subnet printer with_vpc web 0).1 ≡ 3
unfolding create_subnet create_vpc lookup insert
web_created = refl

Reach-IsConsistent_example : IsConsistent (delete_vpc with_web "tenant").0
Reach-IsConsistent_example = Reach-IsConsistent printer backends (
    next (next (next here (create_vpc_step tenant 0)) (create_subnet_step web 0))
      (delete_vpc_step "tenant"))
