-- ===== src/Api/WireGuardExamples.antt =====
-- crates/ocf-api/src/controller.rs: a private node with a relay and a private peer behind it.
use open_compute_fabric_rs.Prelude.{
  ℕ, ◌≡◌, ◌↔◌, refl, sym, ap, ◌∙◌, nat_beq, false≢true, String, List, [], ◌∷◌, none, some,
  string_eq, any, Member, here, there, Member-nil, if◌then◌else◌,
}
use open_compute_fabric_rs.Fabric.Node.{Reachability}
use open_compute_fabric_rs.Api.WireGuard.{
  WgPeer, WgPeerSpec, wg_data, plan_wg_peers, cidr_of, both_private,
}
use open_compute_fabric_rs.Api.WireGuard.Peers.{Routed, plan_wg_peers_iff, plan_wg_peers_exclusive}
use open_compute_fabric_rs.Api.WireGuard.Settings.{
  settings, asked, Direct, Agree, settings-plan_wg_peers,
}

-- Enough of the decimals.
abbrev digit : ℕ → String
digit n = if nat_beq n 1 then "1" else if nat_beq n 2 then "2" else "0"

abbrev relay : WgPeer
relay = record {
  reach = Reachability.relay;
  index = 0;
  addr = some "203.0.113.7";
  public_key = "relay-key";
  via = none;
}

abbrev hidden : WgPeer
hidden = record {
  reach = Reachability.private;
  index = 1;
  addr = none;
  public_key = "hidden-key";
  via = some "relay-key";
}

abbrev peers : List WgPeer
peers = hidden ∷ relay ∷ []

abbrev spec : WgPeerSpec
spec = record {
  public_key = "relay-key";
  endpoint = some "203.0.113.7:0";
  allowed_ips = "10.254.0.2/32" ∷ "10.254.0.1/32" ∷ [];
  keepalive = 25;
}

planned : plan_wg_peers digit wg_data Reachability.private peers ≡ spec ∷ []
unfolding plan_wg_peers both_private any
planned = refl

plan_wg_peers_iff_example :
    ((s : WgPeerSpec) × Member s (plan_wg_peers digit wg_data Reachability.private peers)
      × (s.public_key ≡ "relay-key")
      × Member "10.254.0.2/32" s.allowed_ips)
    ↔ Routed digit wg_data Reachability.private peers "relay-key" "10.254.0.2/32"
plan_wg_peers_iff_example =
    plan_wg_peers_iff digit wg_data Reachability.private peers "relay-key" "10.254.0.2/32"

spec_known : Member spec (plan_wg_peers digit wg_data Reachability.private peers)
spec_known = rw planned (here refl)

two_addresses : ¬ (cidr_of digit wg_data hidden ≡ cidr_of digit wg_data relay)
unfolding cidr_of
two_addresses e = false≢true (ap (λ s. string_eq.beq s "10.254.0.1/32") e)

apart :
    (p q : WgPeer)
    → Member p peers
    → Member q peers
    → cidr_of digit wg_data p ≡ cidr_of digit wg_data q
    → p ≡ q
apart p q (here a) (here b) e = a ∙ sym b
apart p q (here a) (there (here b)) e = absurd (two_addresses (cc (a, b, e)))
apart p q (here a) (there (there n)) e = absurd (Member-nil n)
apart p q (there (here a)) (here b) e = absurd (two_addresses (cc (a, b, e)))
apart p q (there (here a)) (there (here b)) e = a ∙ sym b
apart p q (there (here a)) (there (there n)) e = absurd (Member-nil n)
apart p q (there (there m)) n e = absurd (Member-nil m)

plan_wg_peers_exclusive_example : spec ≡ spec
plan_wg_peers_exclusive_example =
    plan_wg_peers_exclusive digit wg_data Reachability.private peers {c = "10.254.0.2/32"} apart
      spec_known spec_known (here refl) (here refl)

agree :
    Agree digit wg_data Reachability.private peers "relay-key"
      (asked digit wg_data Reachability.private relay)
unfolding both_private
agree p (here e) d = absurd (false≢true (sym d.0 ∙ ap (both_private Reachability.private) e))
agree p (there (here e)) d = ap (asked digit wg_data Reachability.private) e
agree p (there (there m)) d = absurd (Member-nil m)

settings-plan_wg_peers_example :
    ((p : WgPeer)
      → Member p peers
      → Direct digit wg_data Reachability.private p "relay-key"
      → Agree digit wg_data Reachability.private peers "relay-key"
          (asked digit wg_data Reachability.private p)
      → settings spec ≡ asked digit wg_data Reachability.private p)
    × (¬ ((p : WgPeer) × Member p peers × Direct digit wg_data Reachability.private p "relay-key")
        → settings spec ≡ (none, 0))
settings-plan_wg_peers_example =
    settings-plan_wg_peers digit wg_data Reachability.private peers spec_known
