-- ===== src/Api/WireGuard.antt =====
-- crates/ocf-api/src/controller.rs: the three WireGuard planes and the peers that a node programs on
-- one of them. How a number prints is an argument.
pub mod Entries
pub mod Rounds
pub mod Peers
pub mod Settings
use open_compute_fabric_rs.Prelude.{
  ℕ, ◌+◌, String, Bool, true, false, ◌&&◌, not, List, [], ◌∷◌, ◌++◌, Option, none, some, string_eq,
  any, if◌then◌else◌,
}
use open_compute_fabric_rs.Core.Error.{concat}
use open_compute_fabric_rs.Fabric.Node.{Reachability, is_private}

pub record WgPlane : Type 0 where
  pub iface : String
  pub prefix : String
  pub port : ℕ

abbrev pub wg_mgmt : WgPlane
wg_mgmt = record { iface = "wg-mgmt"; prefix = "10.255.0"; port = 51820 }

abbrev pub wg_data : WgPlane
wg_data = record { iface = "wg-data"; prefix = "10.254.0"; port = 51821 }

abbrev pub wg_lb : WgPlane
wg_lb = record { iface = "wg-lb"; prefix = "10.253.0"; port = 51822 }

pub record WgPeer : Type 0 where
  pub reach : Reachability
  pub index : ℕ
  pub addr : Option String
  pub public_key : String
  pub via : Option String

pub record WgPeerSpec : Type 0 where
  pub public_key : String
  pub endpoint : Option String
  pub allowed_ips : List String
  pub keepalive : ℕ

-- `upsert` and the change of the entry that it returns.
unfoldable pub upsert : (WgPeerSpec → WgPeerSpec) → String → List WgPeerSpec → List WgPeerSpec
upsert change key [] =
    change (record { public_key = key; endpoint = none; allowed_ips = []; keepalive = 0 }) ∷ []
upsert change key (s ∷ specs) =
    let rest = upsert change key specs in
    if string_eq.beq s.public_key key then change s ∷ specs else s ∷ rest

unfoldable pub add_cidr : String → WgPeerSpec → WgPeerSpec
add_cidr cidr spec =
    if any (λ ip. string_eq.beq ip cidr) spec.allowed_ips
    then spec
    else record spec { allowed_ips = spec.allowed_ips ++ (cidr ∷ []) }

unfoldable pub both_private : Reachability → WgPeer → Bool
both_private self_reach p = is_private p.reach && is_private self_reach

module _ (decimal : ℕ → String) where
  unfoldable pub ip : WgPlane → ℕ → String
  ip plane index = concat plane.prefix (concat "." (decimal (index + 1)))

  -- "{a}:{port}"
  abbrev pub dialed : ℕ → String → String
  dialed port a = concat a (concat ":" (decimal port))

  unfoldable pub wg_direct_endpoint_keepalive :
      Reachability → Reachability → Option String → ℕ → Option String × ℕ
  wg_direct_endpoint_keepalive self_reach peer_reach peer_addr port =
      if is_private peer_reach then (none, 0) else (
        elim peer_addr [ none ↦ none | some a ↦ some (dialed port a) ],
        if is_private self_reach then 25 else 0,
      )

  -- "{ip}/32"
  unfoldable pub cidr_of : WgPlane → WgPeer → String
  unfolding ip
  cidr_of plane p = concat (ip plane p.index) "/32"

  -- The entry of a peer that is reached directly.
  unfoldable pub set_direct : WgPlane → Reachability → WgPeer → WgPeerSpec → WgPeerSpec
  unfolding wg_direct_endpoint_keepalive add_cidr cidr_of
  set_direct plane self_reach p spec =
      let (endpoint, keepalive) =
        wg_direct_endpoint_keepalive self_reach p.reach p.addr plane.port in
      add_cidr (cidr_of plane p) (record spec { endpoint = endpoint; keepalive = keepalive })

  unfoldable pub relayed : WgPlane → WgPeer → Option String → List WgPeerSpec → List WgPeerSpec
  unfolding upsert add_cidr cidr_of
  relayed plane p none specs = specs
  relayed plane p (some via) specs = upsert (add_cidr (cidr_of plane p)) via specs

  -- The body of the loop.
  unfoldable pub plan_peer : WgPlane → Reachability → List WgPeerSpec → WgPeer → List WgPeerSpec
  unfolding relayed set_direct upsert both_private
  plan_peer plane self_reach specs p =
      if both_private self_reach p
      then relayed plane p p.via specs
      else upsert (set_direct plane self_reach p) p.public_key specs

  unfoldable pub plan_from :
      WgPlane → Reachability → List WgPeerSpec → List WgPeer → List WgPeerSpec
  unfolding plan_peer
  plan_from plane self_reach specs [] = specs
  plan_from plane self_reach specs (p ∷ peers) =
      plan_from plane self_reach (plan_peer plane self_reach specs p) peers

  unfoldable pub plan_wg_peers : WgPlane → Reachability → List WgPeer → List WgPeerSpec
  unfolding plan_from
  plan_wg_peers plane self_reach peers = plan_from plane self_reach [] peers
