-- ===== src/Network/Examples.antt =====
-- crates/ocf-network: the allocator of 10.0.0.0/29.
use open_compute_fabric_rs.Prelude.{ℕ, ◌+◌, ◌≡◌, refl, List, [], ◌∷◌, some, nat_eq, arith, any}
use open_compute_fabric_rs.Prelude.Sets.{contains as has, add}
use open_compute_fabric_rs.Prelude.Text.{
  Text, split_once, split_on, parse_u8, trim, trim_end, trim_start, is_whitespace,
}
use open_compute_fabric_rs.Core.Error.{ok}
use open_compute_fabric_rs.Network.Ipam as Ipam
use open_compute_fabric_rs.Network.Ipam.{
  SubnetAllocator, Printer, allocate, release, parse_ipv4, format_ipv4, parse_cidr, checked_host,
  of_cidr, first_host, last_host, search_free,
}
use open_compute_fabric_rs.Network.Ipam.Address.{parse-format_ipv4}
use open_compute_fabric_rs.Network.Ipam.Allocation.{HasHosts, Allocated, allocate_lem}
use open_compute_fabric_rs.Network.Ipam.Invariant.{IsValid, Op, run, run-IsValid, new-IsValid}

abbrev printer : Printer
printer = record { text = λ t. "text"; number = λ n. "number" }

-- 10.0.0.0
abbrev net : ℕ
net = 167772160

abbrev subnet : SubnetAllocator
subnet = record { base = net; prefix = 29; used = (net + 1) ∷ [] }

subnet-HasHosts : HasHosts subnet
subnet-HasHosts = record {
  subnet = record { prefix_fits = omega arith; base_fits = omega arith; aligned = refl };
  not_all = omega arith;
  room = omega arith;
}

parse-format_ipv4_example : parse_ipv4 (format_ipv4 3232235777) ≡ some 3232235777
parse-format_ipv4_example = parse-format_ipv4 3232235777 (omega arith)

allocate_lem_example : Allocated subnet (allocate printer subnet)
allocate_lem_example = allocate_lem printer subnet subnet-HasHosts

abbrev after_one : SubnetAllocator
after_one = record subnet { used = add (net + 2) subnet.used }

abbrev after_two : SubnetAllocator
after_two = record subnet { used = add (net + 3) after_one.used }

first_allocation : allocate printer subnet ≡ some (after_one, ok (format_ipv4 (net + 2)))
unfolding allocate first_host last_host search_free has any
first_allocation = refl

second_allocation : allocate printer after_one ≡ some (after_two, ok (format_ipv4 (net + 3)))
unfolding allocate first_host last_host search_free has any add
second_allocation = refl

-- "10.0.0.0/29"
abbrev cidr : Text
cidr = b'1' ∷ b'0' ∷ b'.' ∷ b'0' ∷ b'.' ∷ b'0' ∷ b'.' ∷ b'0' ∷ b'/' ∷ b'2' ∷ b'9' ∷ []

subnet_new : Ipam.new printer cidr ≡ ok subnet
unfolding Ipam.new parse_cidr parse_ipv4 of_cidr checked_host split_once split_on parse_u8 trim
    trim_end trim_start is_whitespace
subnet_new = refl

subnet-IsValid : IsValid subnet
subnet-IsValid = new-IsValid printer cidr subnet subnet_new (omega arith) (omega arith)

abbrev calls : List Op
calls = Op.allocate ∷ Op.reserve (format_ipv4 (net + 5)) ∷ Op.release (format_ipv4 (net + 2)) ∷ []

run-IsValid_example : (a' : SubnetAllocator) × (run printer subnet calls ≡ some a') × IsValid a'
run-IsValid_example = run-IsValid printer subnet calls subnet-IsValid
